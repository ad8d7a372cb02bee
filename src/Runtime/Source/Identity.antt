-- ===== src/Runtime/Source/Identity.antt =====
-- The id under which prepareModel caches the chunks of a model.
use dip_distributed_llm_runt.Prelude.{
  ℕ, zero, suc, ◌+◌, ◌/◌, ◌%◌, ◌<◌, ◌≡◌, ◌≢◌, refl, sym, List, [], ◌∷◌, ◌++◌, ltb, All, arith, inl,
  inr, length, Bool-cases,
}
use dip_distributed_llm_runt.Prelude.Text.{codes}
use dip_distributed_llm_runt.Prelude.Decimal.{decimal, decimal_from, decimal_inj}
use dip_distributed_llm_runt.Runtime.Model.{ChunkKey}
use dip_distributed_llm_runt.Runtime.Source.{
  Text, File, Head, cache_key, hex_digit, hex, digest_string, join_nul, or_empty, file_identity,
  url_identity,
}

-- A text without the character that joins it to the next.
abbrev pub Without : ℕ → Text → Type 0
Without sep = All λ c. c ≢ sep

-- NUL joins the parts of an identity.
abbrev pub NoNul : Text → Type 0
NoNul = Without 0

abbrev pub IsBytes : List ℕ → Type 0
IsBytes = All λ b. b < 256

join_inj :
    (sep : ℕ) (a b rest rest' : Text)
    → Without sep a
    → Without sep b
    → a ++ (sep ∷ rest) ≡ b ++ (sep ∷ rest')
    → (a ≡ b) × (rest ≡ rest')
join_inj sep [] [] rest rest' h k e = (refl, cc e)
join_inj sep [] (c ∷ cs) rest rest' h (k, ks) e = absurd (k (sym (cc e)))
join_inj sep (c ∷ cs) [] rest rest' (h, hs) k e = absurd (h (cc e))
join_inj sep (c ∷ cs) (d ∷ ds) rest rest' (h, hs) (k, ks) e =
    let (p, q) = join_inj sep cs ds rest rest' hs ks (cc e) in
    let same : c ≡ d = cc e in (cc (p, same), q)

append_cancel : (xs ys zs : Text) → xs ++ ys ≡ xs ++ zs → ys ≡ zs
append_cancel [] ys zs e = e
append_cancel (x ∷ xs) ys zs e = append_cancel xs ys zs (cc e)

hex_digit_inj : (a b : ℕ) → a < 16 → b < 16 → hex_digit a ≡ hex_digit b → a ≡ b
hex_digit_inj a b h k e = ground (arith, e)

hex_inj : (a b : List ℕ) → IsBytes a → IsBytes b → hex a ≡ hex b → a ≡ b
unfolding hex
hex_inj [] [] h k e = refl
hex_inj [] (d ∷ ds) h k e = absurd (cc e)
hex_inj (c ∷ cs) [] h k e = absurd (cc e)
hex_inj (c ∷ cs) (d ∷ ds) (h, hs) (k, ks) e =
    let high : hex_digit (c / 16) ≡ hex_digit (d / 16) = cc e in
    let low : hex_digit (c % 16) ≡ hex_digit (d % 16) = cc e in
    let rest : hex cs ≡ hex ds = cc e in
    let above = hex_digit_inj (c / 16) (d / 16) (omega arith) (omega arith) high in
    let below = hex_digit_inj (c % 16) (d % 16) (omega arith) (omega arith) low in
    let same : c ≡ d = omega (arith, above, below) in cc (same, hex_inj cs ds hs ks rest)

hex_digit-apart : (d : ℕ) → d < 16 → hex_digit d ≢ b':'
hex_digit-apart d h e = ground (arith, e)

-- The digits that a hash is printed in have no colon.
hex-Without : (bs : List ℕ) → IsBytes bs → Without b':' (hex bs)
unfolding hex
hex-Without [] h = tt
hex-Without (b ∷ bs) (h, hs) = (
  hex_digit-apart (b / 16) (omega arith),
  (hex_digit-apart (b % 16) (omega arith), hex-Without bs hs),
)

Without-append :
    (sep : ℕ) (xs : Text) (c : ℕ) → Without sep xs → c ≢ sep → Without sep (xs ++ (c ∷ []))
Without-append sep [] c h k = (k, tt)
Without-append sep (x ∷ xs) c (h, hs) k = (h, Without-append sep xs c hs k)

decimal_from-Without : (sep fuel n : ℕ) → sep < b'0' → Without sep (decimal_from fuel n)
unfolding decimal_from
decimal_from-Without sep zero n lt = (omega (arith, lt), tt)
decimal_from-Without sep (suc fuel) n lt = elim (Bool-cases (ltb n 10)) [
  | inl e ↦ rw e ((λ q. omega (arith, q, lt)), tt)
  | inr e ↦ rw e (
      Without-append sep (decimal_from fuel (n / 10)) (b'0' + n % 10)
        (decimal_from-Without sep fuel (n / 10) lt) (λ q. omega (arith, q, lt)))
]

-- A number in decimal has neither NUL nor a hyphen.
decimal-Without : (sep n : ℕ) → sep < b'0' → Without sep (decimal n)
unfolding decimal
decimal-Without sep n lt = decimal_from-Without sep n n lt

digest_inj :
    (sha256 : List ℕ → List ℕ) (a b : Text)
    → IsBytes (sha256 a)
    → IsBytes (sha256 b)
    → (sha256 a ≡ sha256 b → a ≡ b)
    → digest_string sha256 a ≡ digest_string sha256 b
    → a ≡ b
unfolding digest_string
digest_inj sha256 a b h k apart e = apart (hex_inj (sha256 a) (sha256 b) h k e)

file_id_distinguishes :
    (sha256 : List ℕ → List ℕ) (f g : File)
    → IsBytes (sha256 (file_identity f))
    → IsBytes (sha256 (file_identity g))
    → (sha256 (file_identity f) ≡ sha256 (file_identity g) → file_identity f ≡ file_identity g)
    → NoNul f.name
    → NoNul g.name
    → digest_string sha256 (file_identity f) ≡ digest_string sha256 (file_identity g)
    → (f.name ≡ g.name) × (length f.bytes ≡ length g.bytes) × (f.last_modified ≡ g.last_modified)
unfolding file_identity join_nul
file_id_distinguishes sha256 f g h k apart n n' e =
    let whole = digest_inj sha256 (file_identity f) (file_identity g) h k apart e in
    let (name, rest) = join_inj 0 f.name g.name _ _ n n' whole in
    let (size, changed) =
      join_inj 0 (decimal (length f.bytes)) (decimal (length g.bytes)) _ _
        (decimal-Without 0 (length f.bytes) (omega arith))
        (decimal-Without 0 (length g.bytes) (omega arith)) rest in
    (name, decimal_inj _ _ size, decimal_inj _ _ changed)

-- A key tells the file id and both ends of the range.
cache_key_inj :
    (a b : Text) (k l : ChunkKey)
    → Without b':' a
    → Without b':' b
    → cache_key a k ≡ cache_key b l
    → (a ≡ b) × (k.begin ≡ l.begin) × (k.stop ≡ l.stop)
unfolding cache_key
cache_key_inj a b k l h h' e =
    let (same, range) = join_inj b':' a b _ _ h h' (append_cancel (codes "chunk:") _ _ e) in
    let (begin, stop) =
      join_inj b'-' (decimal k.begin) (decimal l.begin) _ _
        (decimal-Without b'-' k.begin (omega arith)) (decimal-Without b'-' l.begin (omega arith))
        range in
    (same, decimal_inj _ _ begin, decimal_inj _ _ stop)

-- Two chunks of two model files are cached under one key only where both are the same range of bytes and the
-- files agree in name, in size and in the time of the last change: SHA-256 tells the two identities apart,
-- and no file name holds NUL.
pub cache_key_distinguishes :
    (sha256 : List ℕ → List ℕ) (f g : File) (k l : ChunkKey)
    → IsBytes (sha256 (file_identity f))
    → IsBytes (sha256 (file_identity g))
    → (sha256 (file_identity f) ≡ sha256 (file_identity g) → file_identity f ≡ file_identity g)
    → NoNul f.name
    → NoNul g.name
    → cache_key (digest_string sha256 (file_identity f)) k
      ≡ cache_key (digest_string sha256 (file_identity g)) l
    → (k.begin ≡ l.begin)
      × (k.stop ≡ l.stop)
      × (f.name ≡ g.name)
      × (length f.bytes ≡ length g.bytes)
      × (f.last_modified ≡ g.last_modified)
cache_key_distinguishes sha256 f g k l h h' apart n n' e =
    let id-Without : (u : File)
        → IsBytes (sha256 (file_identity u))
        → Without b':' (digest_string sha256 (file_identity u)) =
      λ u b. unfold digest_string in hex-Without (sha256 (file_identity u)) b in
    let (same, begin, stop) = cache_key_inj _ _ k l (id-Without f h) (id-Without g h') e in
    let (name, size, changed) = file_id_distinguishes sha256 f g h h' apart n n' same in
    (begin, stop, name, size, changed)

-- Two URLs have one file id only where they agree in address, length, entity tag and time of the last change.
pub url_id_distinguishes :
    (sha256 : List ℕ → List ℕ) (a b raw raw' : Text) (x y : Head)
    → IsBytes (sha256 (url_identity a raw x))
    → IsBytes (sha256 (url_identity b raw' y))
    → (sha256 (url_identity a raw x) ≡ sha256 (url_identity b raw' y)
        → url_identity a raw x ≡ url_identity b raw' y)
    → NoNul a × NoNul raw × NoNul (or_empty x.etag)
    → NoNul b × NoNul raw' × NoNul (or_empty y.etag)
    → digest_string sha256 (url_identity a raw x) ≡ digest_string sha256 (url_identity b raw' y)
    → (a ≡ b)
      × (raw ≡ raw')
      × (or_empty x.etag ≡ or_empty y.etag)
      × (or_empty x.last_modified ≡ or_empty y.last_modified)
unfolding url_identity join_nul
url_id_distinguishes sha256 a b raw raw' x y h k apart (n, o, p) (n', o', p') e =
    let whole = digest_inj sha256 (url_identity a raw x) (url_identity b raw' y) h k apart e in
    let (address, rest) = join_inj 0 a b _ _ n n' whole in
    let (size, rest') = join_inj 0 raw raw' _ _ o o' rest in
    let (tag, changed) = join_inj 0 (or_empty x.etag) (or_empty y.etag) _ _ p p' rest' in
    (address, size, tag, changed)
