-- ===== src/LanProbe/Candidates/Line.antt =====
-- The SDP candidate line that describeSignaled reads, as its comment writes it:
--   candidate:<foundation> <component> <protocol> <priority> <address> <port> typ <type> ...
use dip_distributed_llm_runt.Prelude.{
  ℕ, zero, suc, ◌+◌, ◌/◌, ◌%◌, ◌≤◌, ◌≡◌, ◌≢◌, refl, ap, ◌∙◌, inl, inr, true, false, List, [], ◌∷◌,
  ◌++◌, none, some, All, append-nil, ltb, arith, Bool-cases,
}
use dip_distributed_llm_runt.Prelude.Text.{codes, is_space}
use dip_distributed_llm_runt.Prelude.Decimal.{read_digits, decimal_from, decimal, read_decimal}
use dip_distributed_llm_runt.LanProbe.Candidates.{
  Text, Candidate, missing, text, fields, num_or_null, lower, non_empty, without, bare_foundation,
  foundation_field, type_field, same_text, is_mdns_name, describe_signaled,
}

abbrev pub IsToken : Text → Type 0
IsToken w = (w ≢ []) × All (λ c. is_space c ≡ false) w

snoc_nonempty : (xs : Text) (c : ℕ) → xs ++ (c ∷ []) ≢ []
snoc_nonempty [] c h = cc h
snoc_nonempty (x ∷ xs) c h = cc h

digit_not_space : (d : ℕ) → d ≤ 9 → is_space (b'0' + d) ≡ false
unfolding is_space
digit_not_space d h = ground arith

no_space-append :
    (xs : Text) (c : ℕ)
    → All (λ x. is_space x ≡ false) xs
    → is_space c ≡ false
    → All (λ x. is_space x ≡ false) (xs ++ (c ∷ []))
no_space-append [] c h e = (e, tt)
no_space-append (x ∷ xs) c (h, hs) e = (h, no_space-append xs c hs e)

decimal_from-IsToken : (fuel n : ℕ) → IsToken (decimal_from fuel n)
unfolding decimal_from
decimal_from-IsToken zero n = (λ e. cc e, (digit_not_space (n % 10) (omega arith), tt))
decimal_from-IsToken (suc fuel) n = elim (Bool-cases (ltb n 10)) [
  | inl e ↦ rw e (λ f. cc f, (digit_not_space n (ground arith), tt))
  | inr e ↦ rw e (
    snoc_nonempty (decimal_from fuel (n / 10)) (b'0' + n % 10),
    no_space-append (decimal_from fuel (n / 10)) (b'0' + n % 10)
        (decimal_from-IsToken fuel (n / 10)).1 (digit_not_space (n % 10) (omega arith)),
  )
]

num_or_null_text :
    (w : Text) (n : ℕ) → w ≢ [] → read_digits 0 w ≡ some n → num_or_null (text w) ≡ some n
unfolding num_or_null
num_or_null_text [] n h e = absurd (h refl)
num_or_null_text (c ∷ cs) n h e = e

num_or_null-decimal : (n : ℕ) → num_or_null (text (decimal n)) ≡ some n
unfolding decimal
num_or_null-decimal n =
    num_or_null_text (decimal_from n n) n (decimal_from-IsToken n n).0 (read_decimal n)

decimal-IsToken : (n : ℕ) → IsToken (decimal n)
unfolding decimal
decimal-IsToken n = decimal_from-IsToken n n

abbrev pub spaced : List Text → Text
spaced [] = []
spaced (w ∷ []) = w
spaced (w ∷ v ∷ ws) = w ++ (32 ∷ spaced (v ∷ ws))

fields_word : (w : Text) → All (λ c. is_space c ≡ false) w → fields false w ≡ w ∷ []
unfolding fields
fields_word [] h = refl
fields_word (c ∷ cs) (h, hs) = rw (h, fields_word cs hs) refl

fields_step :
    (w rest : Text)
    → All (λ c. is_space c ≡ false) w
    → fields false (w ++ (32 ∷ rest)) ≡ w ∷ fields true rest
unfolding fields is_space
fields_step [] rest h = refl
fields_step (c ∷ cs) rest (h, hs) = rw (h, fields_step cs rest hs) refl

-- No white space is left to pass over.
fields_gap : (w rest : Text) → IsToken w → fields true (w ++ rest) ≡ fields false (w ++ rest)
unfolding fields
fields_gap [] rest (h, hs) = absurd (h refl)
fields_gap (c ∷ cs) rest (h, (e, es)) = rw e refl

fields-spaced :
    (w : Text) (ws : List Text)
    → IsToken w
    → All IsToken ws
    → fields false (spaced (w ∷ ws)) ≡ w ∷ ws
fields-spaced w [] h hs = fields_word w h.1
fields-spaced w (v ∷ []) h (k, ks) =
    fields_step w v h.1
    ∙ ap (◌∷◌ w) (rw append-nil at (fields_gap v [] k))
    ∙ ap (◌∷◌ w) (fields-spaced v [] k tt)
fields-spaced w (v ∷ u ∷ ws) h (k, ks) =
    fields_step w (spaced (v ∷ u ∷ ws)) h.1
    ∙ ap (◌∷◌ w) (fields_gap v (32 ∷ spaced (u ∷ ws)) k)
    ∙ ap (◌∷◌ w) (fields-spaced v (u ∷ ws) k ks)

-- The parts of a candidate line; `extensions` is what stands after the type.
pub record Parts : Type 0 where
  pub foundation : Text
  pub component : Text
  pub protocol : Text
  pub priority : ℕ
  pub address : Text
  pub port : ℕ
  pub type : Text
  pub extensions : List Text

abbrev pub words : Parts → List Text
words p =
    (codes "candidate:" ++ p.foundation)
    ∷ p.component
    ∷ p.protocol
    ∷ decimal p.priority
    ∷ p.address
    ∷ decimal p.port
    ∷ codes "typ"
    ∷ p.type
    ∷ p.extensions

abbrev pub candidate_line : Parts → Text
candidate_line p = spaced (words p)

-- The plain object that PeerJS hands to addIceCandidate: the line, and none of the attributes.
abbrev pub plain : Text → Candidate
plain line = record {
  line = line;
  type = none;
  address = none;
  port = missing;
  protocol = none;
  foundation = none;
  priority = missing;
}

-- The texts of the line are words: not empty, and free of white space.
abbrev pub HasWords : Parts → Type 0
HasWords p =
    IsToken p.foundation
    × IsToken p.component
    × IsToken p.protocol
    × IsToken p.address
    × IsToken p.type
    × All IsToken p.extensions

without-append : (prefix rest : Text) → without prefix (prefix ++ rest) ≡ some rest
unfolding without
without-append [] rest = refl
without-append (c ∷ cs) rest = ground (arith, without-append cs rest)

non_empty_token : (w : Text) → w ≢ [] → non_empty (some w) ≡ some w
unfolding non_empty
non_empty_token [] h = absurd (h refl)
non_empty_token (c ∷ cs) h = refl

fields_of_line : (p : Parts) → HasWords p → fields false (candidate_line p) ≡ words p
unfolding is_space
fields_of_line p (a, b, c, d, e, f) =
    fields-spaced (codes "candidate:" ++ p.foundation) _
      (
        (λ g. cc g),
        ((refl, (refl, (refl, (refl, (refl, (refl, (refl, (refl, (refl, (refl, a.1))))))))))),
      )
      (
        b,
        (
          c,
          (
            decimal-IsToken p.priority,
            (d, (decimal-IsToken p.port, (((λ g. cc g), (refl, (refl, (refl, tt)))), (e, f)))),
          ),
        ),
      )

foundation_of_line :
    (p : Parts) → p.foundation ≢ [] → foundation_field (words p) ≡ some p.foundation
unfolding foundation_field bare_foundation non_empty without
foundation_of_line p h =
    rw (without-append (codes "candidate:") p.foundation) (non_empty_token p.foundation h)

type_of_line : (p : Parts) → type_field (words p) ≡ some p.type
unfolding type_field same_text
type_of_line p = refl

-- What is read from the line of a candidate, printed from its parts in the grammar of SDP, are those
-- parts: every number, the type, the address, the foundation without its prefix and the protocol in
-- lower case, whatever extensions follow the type.
pub describe_signaled-candidate_line :
    (now : ℕ) (p : Parts)
    → HasWords p
    → describe_signaled now (plain (candidate_line p)) ≡ record {
      at_ms = now;
      candidate = candidate_line p;
      type = some p.type;
      address = some p.address;
      port = some p.port;
      protocol = some (lower p.protocol);
      foundation = some p.foundation;
      priority = some p.priority;
      is_mdns = is_mdns_name (some p.address);
    }
unfolding describe_signaled
describe_signaled-candidate_line now p h =
    rw
      (
        fields_of_line p h,
        foundation_of_line p h.0.0,
        type_of_line p,
        num_or_null-decimal p.port,
        num_or_null-decimal p.priority,
      )
      (unfold non_empty num_or_null in refl)
