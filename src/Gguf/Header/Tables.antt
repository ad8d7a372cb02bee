-- ===== src/Gguf/Header/Tables.antt =====
-- The tables of scripts/lib/gguf-header.mjs, and tensorBytes.
use dip_distributed_llm_runt.Prelude.{
  ℕ, ◌*◌, ◌/◌, ◌%◌, if◌then◌else◌, List, [], ◌∷◌, Option, none, some, String, leb, ◌==◌, not, ◌||◌,
  ◌&&◌,
}
use dip_distributed_llm_runt.Gguf.Program.{Failure, Program, ret, throw}

-- GGUF_VALUE_TYPE.STRING and ARRAY; the other types are scalars.
abbrev pub type_string : ℕ
type_string = 8

abbrev pub type_array : ℕ
type_array = 9

-- SCALAR_WIDTH
unfoldable pub scalar_width : ℕ → Option ℕ
scalar_width type =
    if (type == 0) || (type == 1) || (type == 7)
    then some 1
    else if (type == 2) || (type == 3)
    then some 2
    else if leb 4 type && leb type 6
    then some 4
    else if leb 10 type && leb type 12
    then some 8
    else none

-- The name, the block size and the size of a block.
pub record Trait : Type 0 where
  pub type_id : ℕ
  pub name : String
  pub blck : ℕ
  pub size : ℕ

abbrev trait : ℕ → String → ℕ → ℕ → Trait
trait type_id name blck size = record { type_id = type_id; name = name; blck = blck; size = size }

unfoldable pub ggml_types : List Trait
ggml_types =
    trait 0 "F32" 1 4
    ∷ trait 1 "F16" 1 2
    ∷ trait 2 "Q4_0" 32 18
    ∷ trait 3 "Q4_1" 32 20
    ∷ trait 6 "Q5_0" 32 22
    ∷ trait 7 "Q5_1" 32 24
    ∷ trait 8 "Q8_0" 32 34
    ∷ trait 9 "Q8_1" 32 40
    ∷ trait 10 "Q2_K" 256 84
    ∷ trait 11 "Q3_K" 256 110
    ∷ trait 12 "Q4_K" 256 144
    ∷ trait 13 "Q5_K" 256 176
    ∷ trait 14 "Q6_K" 256 210
    ∷ trait 15 "Q8_K" 256 292
    ∷ trait 16 "IQ2_XXS" 256 66
    ∷ trait 17 "IQ2_XS" 256 74
    ∷ trait 18 "IQ3_XXS" 256 98
    ∷ trait 19 "IQ1_S" 256 50
    ∷ trait 20 "IQ4_NL" 32 18
    ∷ trait 21 "IQ3_S" 256 110
    ∷ trait 22 "IQ2_S" 256 82
    ∷ trait 23 "IQ4_XS" 256 136
    ∷ trait 24 "I8" 1 1
    ∷ trait 25 "I16" 1 2
    ∷ trait 26 "I32" 1 4
    ∷ trait 27 "I64" 1 8
    ∷ trait 28 "F64" 1 8
    ∷ trait 29 "IQ1_M" 256 56
    ∷ trait 30 "BF16" 1 2
    ∷ trait 34 "TQ1_0" 256 54
    ∷ trait 35 "TQ2_0" 256 66
    ∷ trait 39 "MXFP4" 32 17
    ∷ trait 40 "NVFP4" 64 36
    ∷ []

unfoldable pub find_trait : ℕ → List Trait → Option Trait
find_trait type [] = none
find_trait type (t ∷ traits) = if t.type_id == type then some t else find_trait type traits

abbrev pub product : List ℕ → ℕ → ℕ
product [] n = n
product (d ∷ ds) n = product ds (n * d)

-- `dims[0]`, or 1 without dimensions.
abbrev pub row : List ℕ → ℕ
row [] = 1
row (d ∷ ds) = d

abbrev pub others : List ℕ → List ℕ
others [] = []
others (d ∷ ds) = ds

unfoldable pub tensor_bytes : ℕ → List ℕ → Program ℕ
tensor_bytes type dims = elim (find_trait type ggml_types) [
  | none ↦ throw (Failure.unknown_type type)
  | some t ↦
      if not (row dims % t.blck == 0)
      then throw Failure.bad_row
      else ret (product (others dims) (row dims / t.blck * t.size))
]
