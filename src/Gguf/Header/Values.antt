-- ===== src/Gguf/Header/Values.antt =====
-- The readers of arrays and of values on what the format writes.
use dip_distributed_llm_runt.Prelude.{
  ℕ, zero, suc, ◌+◌, ◌-◌, ◌*◌, ◌^◌, ◌<◌, ◌≤◌, ◌≡◌, refl, ap, sym, subst, ◌∙◌, true, false, List, [],
  ◌∷◌, ◌++◌, append_assoc, length, length-append, length-drop, length-take, take-append-drop, some,
  All, map, take, drop, min, ltb, ◌==◌, arith,
}
use dip_distributed_llm_runt.Gguf.Program.{Reader, pure, ◌>>=◌, bytes}
use dip_distributed_llm_runt.Gguf.Header.{
  Item, single, text, number, array, u32, u64, form, scalar, string, skip, strings, scalars,
  array_items, value, max_safe_integer, array_sample,
}
use dip_distributed_llm_runt.Gguf.Header.Tables.{scalar_width, type_string, type_array}
use dip_distributed_llm_runt.Gguf.Header.Parsing.{
  Parses, Parses-as, Parses-pure, Parses-bytes, Parses-bind, Parses-map, Parses-tell,
}
use dip_distributed_llm_runt.Gguf.Header.Fields.{
  length-le, Parses-u32, Parses-u64, Parses-string, Parses-scalar,
}
use dip_distributed_llm_runt.Gguf.Header.Writing.{
  le, write_string, write_strings, write_numbers, Field, text_field, number_field, texts_field,
  numbers_field, field_type, write_field, field_value, IsShort, IsField,
}

Parses-skip : (offset : ℕ) (xs : List ℕ) → Parses offset (skip (length xs)) xs []
unfolding skip
Parses-skip offset xs =
    Parses-map offset (bytes (length xs)) (λ b. []) xs xs (Parses-bytes offset xs)

Parses-strings :
    (offset kept : ℕ) (ss : List (List ℕ))
    → All IsShort ss
    → Parses offset (strings (length ss) kept) (write_strings ss) (map text (take kept ss))
unfolding strings
Parses-strings offset zero [] h = Parses-pure offset []
Parses-strings offset (suc kept) [] h = Parses-pure offset []
Parses-strings offset zero (s ∷ ss) (h, hs) =
    let n = length s in
    let whole : (le 8 n ++ s) ++ write_strings ss ≡ le 8 n ++ (s ++ write_strings ss) =
      append_assoc (le 8 n) s (write_strings ss) in
    Parses-as offset (strings (suc (length ss)) 0) _ _ [] (sym whole) (
      Parses-bind offset u64 _ (le 8 n) (s ++ write_strings ss) n []
        (Parses-u64 offset n (omega arith))
        (Parses-bind (offset + length (le 8 n)) (skip n) _ s (write_strings ss) [] []
          (Parses-skip (offset + length (le 8 n)) s)
          (Parses-strings (offset + length (le 8 n) + n) zero ss hs)))
Parses-strings offset (suc kept) (s ∷ ss) (h, hs) =
    let keeps : ltb 0 (suc kept) ≡ true = ground arith in
    let fewer : suc kept - 1 ≡ kept = omega arith in
    rw (keeps, fewer)
      (Parses-bind offset string (λ t. strings (length ss) kept >>= λ items. pure (text t ∷ items))
        (write_string s) (write_strings ss) s (text s ∷ map text (take kept ss))
        (Parses-string offset s h)
        (Parses-map (offset + length (write_string s)) (strings (length ss) kept)
          (λ items. text s ∷ items) (write_strings ss) (map text (take kept ss))
          (Parses-strings (offset + length (write_string s)) kept ss hs)))

Parses-scalars :
    (offset type width : ℕ) (ns : List ℕ)
    → scalar_width type ≡ some width
    → All (λ n. n < 256 ^ width) ns
    → Parses offset
        (scalars type (length ns))
        (write_numbers width ns)
        (map (λ n. number (form type n)) ns)
unfolding scalars
Parses-scalars offset type width [] e h = Parses-pure offset []
Parses-scalars offset type width (n ∷ ns) e (h, hs) =
    Parses-bind offset (scalar type) _ (le width n) (write_numbers width ns) (form type n) _
      (Parses-scalar offset type width n e h)
      (Parses-map (offset + length (le width n)) (scalars type (length ns))
        (λ items. number (form type n) ∷ items) (write_numbers width ns) _
        (Parses-scalars (offset + length (le width n)) type width ns e hs))

write_numbers-append :
    (width : ℕ) (xs ys : List ℕ)
    → write_numbers width (xs ++ ys) ≡ write_numbers width xs ++ write_numbers width ys
write_numbers-append width [] ys = refl
write_numbers-append width (x ∷ xs) ys =
    ap (λ l. le width x ++ l) (write_numbers-append width xs ys)
    ∙ sym (append_assoc (le width x) (write_numbers width xs) (write_numbers width ys))

length-write_numbers :
    (width : ℕ) (ns : List ℕ) → length (write_numbers width ns) ≡ length ns * width
length-write_numbers width [] = omega arith
length-write_numbers width (n ∷ ns) =
    length-append (le width n) (write_numbers width ns)
    ∙ omega (arith, length-le width n, length-write_numbers width ns)

All-take : (P : ℕ → Type 0) (k : ℕ) (ns : List ℕ) → All P ns → All P (take k ns)
All-take P zero ns h = tt
All-take P (suc k) [] h = tt
All-take P (suc k) (n ∷ ns) (h, hs) = (h, All-take P k ns hs)

-- The types of scalars are neither those of texts nor those of arrays.
pub scalar_type :
    (type width : ℕ)
    → scalar_width type ≡ some width
    → ((type == type_string) ≡ false) × ((type == type_array) ≡ false) × (type < 256 ^ 4)
unfolding scalar_width
scalar_type type width e = ground arith

Parses-numbers :
    (offset type width : ℕ) (ns : List ℕ)
    → scalar_width type ≡ some width
    → All (λ n. n < 256 ^ width) ns
    → Parses offset
        (array_items type (length ns))
        (write_numbers width ns)
        (map (λ n. number (form type n)) (take (min (length ns) array_sample) ns))
unfolding array_items
Parses-numbers offset type width ns e h =
    let (not_text, not_array, small) = scalar_type type width e in
    let c = min (length ns) array_sample in
    let kept = take c ns in
    let cut = drop c ns in
    let count : length kept ≡ c = length-take c ns ∙ omega arith in
    let left : (length ns - c) * width ≡ length (write_numbers width cut) =
      ap (λ n. n * width) (sym (length-drop c ns)) ∙ sym (length-write_numbers width cut) in
    let halves : write_numbers width kept ++ write_numbers width cut ≡ write_numbers width ns =
      sym (write_numbers-append width kept cut)
      ∙ ap (write_numbers width) (take-append-drop c ns) in
    let next = offset + length (write_numbers width kept) in
    let sample = map (λ n. number (form type n)) kept in
    let first : Parses offset (scalars type c) (write_numbers width kept) sample =
      subst (λ k. Parses offset (scalars type k) (write_numbers width kept) sample) count
        (Parses-scalars offset type width kept e (All-take (λ n. n < 256 ^ width) c ns h)) in
    let second : Parses next (skip ((length ns - c) * width)) (write_numbers width cut) [] =
      subst (λ k. Parses next (skip k) (write_numbers width cut) []) (sym left)
        (Parses-skip next (write_numbers width cut)) in
    let then_skip : List Item → Reader (List Item) =
      λ items. skip ((length ns - c) * width) >>= λ skipped. pure items in
    rw (array_items, not_text, not_array, e)
      (Parses-as offset (scalars type c >>= then_skip) _ _ sample halves (
        Parses-bind offset (scalars type c) then_skip (write_numbers width kept)
          (write_numbers width cut) sample sample first
          (Parses-map next (skip ((length ns - c) * width)) (λ skipped. sample)
            (write_numbers width cut) [] second)))

Parses-array :
    (offset type : ℕ) (count : ℕ) (written : List ℕ) (items : List Item)
    → type < 256 ^ 4
    → count ≤ max_safe_integer
    → ((at : ℕ) → Parses at (array_items type count) written items)
    → Parses offset
        (value type_array)
        (le 4 type ++ (le 8 count ++ written))
        (array type count items)
unfolding value
Parses-array offset type count written items small short p =
    let fits : ltb max_safe_integer count ≡ false = ground arith in
    Parses-bind offset u32 _ (le 4 type) (le 8 count ++ written) type (array type count items)
      (Parses-u32 offset type small)
      (Parses-bind (offset + length (le 4 type)) u64 _ (le 8 count) written count
        (array type count items) (Parses-u64 (offset + length (le 4 type)) count (omega arith))
        (Parses-tell (offset + length (le 4 type) + length (le 8 count)) _ written _ (
          rw fits (
            Parses-map (offset + length (le 4 type) + length (le 8 count)) (array_items type count)
              (λ sample. array type count sample) written items
              (p (offset + length (le 4 type) + length (le 8 count)))))))

pub Parses-value :
    (offset : ℕ) (f : Field)
    → IsField f
    → Parses offset (value (field_type f)) (write_field f) (field_value f)
unfolding value
Parses-value offset (text_field s) h =
    Parses-map offset string (λ t. single (text t)) (write_string s) s (Parses-string offset s h)
Parses-value offset (number_field type width bits) (e, h) =
    let (not_text, not_array, small) = scalar_type type width e in
    rw (value, not_text, not_array)
      (Parses-map offset (scalar type) (λ t. single (number t)) (le width bits) (form type bits)
        (Parses-scalar offset type width bits e h))
Parses-value offset (texts_field ss) (h, hs) =
    Parses-array offset type_string (length ss) (write_strings ss) (map text (take array_sample ss))
      (omega arith) h (λ at. unfold array_items in (Parses-strings at array_sample ss hs))
Parses-value offset (numbers_field type width ns) (e, (h, hs)) =
    let (not_text, not_array, small) = scalar_type type width e in
    Parses-array offset type (length ns) (write_numbers width ns) _ small h
      (λ at. Parses-numbers at type width ns e hs)
