-- ===== src/Gguf/Header/Start.antt =====
-- Where the tensor data starts: the end of readGgufHeader in scripts/lib/gguf-header.mjs, and metaValue.
--
-- An alignment is known where `Number` of the field is a whole number from 0 that is exact: an integer, a
-- boolean or a text of decimal digits. `none` stands for any other, a float included.
use native.Mathlib.Nat.{div-add-mod', mod-lt, mul-mod_left}
use dip_distributed_llm_runt.Prelude.{
  ℕ, zero, suc, ◌+◌, ◌-◌, ◌*◌, ◌/◌, ◌%◌, ◌^◌, ◌<◌, ◌≤◌, ◌≡◌, refl, if◌then◌else◌, List, [], ◌∷◌,
  Option, none, some, leb, ltb, arith,
}
use dip_distributed_llm_runt.Prelude.Text.{codes}
use dip_distributed_llm_runt.Prelude.Decimal.{read_digits}
use dip_distributed_llm_runt.Prelude.Dict
use dip_distributed_llm_runt.Gguf.Header.{
  unsigned, signed, floating, boolean, Item, text, number, Value, single, array, Metadata,
  Text-discrete, Header, max_safe_integer,
}

unfoldable pub exact : ℕ → Option ℕ
exact n = if leb n max_safe_integer then some n else none

-- `Number(entry.value)`; of an array, which has no `value`, it is NaN.
unfoldable pub number_of : Value → Option ℕ
number_of (single (number (unsigned n))) = exact n
number_of (single (number (signed width bits))) =
    if ltb bits (2 ^ (8 * width - 1)) then exact bits else none
number_of (single (number (floating bits))) = none
number_of (single (number (boolean b))) = some (if b then 1 else 0)
number_of (single (text [])) = some 0
number_of (single (text (c ∷ cs))) = elim (read_digits 0 (c ∷ cs)) [
  | none ↦ none
  | some n ↦ exact n
]
number_of (array item_type length_ sample) = none

unfoldable pub alignment_of : Metadata → Option ℕ
alignment_of metadata = elim (Dict.get Text-discrete (codes "general.alignment") metadata) [
  | none ↦ some 32
  | some v ↦ number_of v
]

-- `Math.ceil(end / alignment) * alignment`, which is NaN for an alignment of 0.
unfoldable pub data_start : ℕ → Option ℕ → Option ℕ
data_start end none = none
data_start end (some zero) = none
data_start end (some (suc a)) = some ((end + a) / suc a * suc a)

pub record Located : Type 0 where
  pub header : Header
  pub alignment : Option ℕ
  pub start : Option ℕ

unfoldable pub locate : Header → Located
locate h = record {
  header = h;
  alignment = alignment_of h.metadata;
  start = data_start h.descriptors_end (alignment_of h.metadata);
}

-- What metaValue gives: undefined, the entry of an array, or the value of any other.
pub data Meta : Type 0 where
  undefined : Meta
  entry : Value → Meta
  plain : Item → Meta

unfoldable pub meta_value : List ℕ → Metadata → Meta
meta_value key metadata = elim (Dict.get Text-discrete key metadata) [
  | none ↦ undefined
  | some (single i) ↦ plain i
  | some (array item_type length_ sample) ↦ entry (array item_type length_ sample)
]

-- With a known alignment above 0 the tensor data starts at the first multiple of the alignment that is not
-- before the end of the descriptors.
pub locate-start :
    (h : Header) (a : ℕ)
    → alignment_of h.metadata ≡ some a
    → 0 < a
    → (n : ℕ) × ((locate h).start ≡ some n)
      × (h.descriptors_end ≤ n)
      × (n < h.descriptors_end + a)
      × (n % a ≡ 0)
unfolding locate data_start
locate-start h zero e pos = absurd (omega arith)
locate-start h (suc a) e pos =
    let split = div-add-mod' (h.descriptors_end + a) (suc a) in
    let below = mod-lt (h.descriptors_end + a) {m = suc a} (omega arith) in
    (
      (h.descriptors_end + a) / suc a * suc a,
      rw (locate, e) refl,
      omega (arith, split, below),
      omega (arith, split, below),
      mul-mod_left ((h.descriptors_end + a) / suc a) (suc a),
    )
