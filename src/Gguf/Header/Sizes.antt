-- ===== src/Gguf/Header/Sizes.antt =====
-- tensorBytes of scripts/lib/gguf-header.mjs.
use native.Mathlib.Nat.{div-add-mod'}
use dip_distributed_llm_runt.Prelude.{
  ℕ, ◌*◌, ◌/◌, ◌%◌, ◌≡◌, ◌<◌, sym, ap, ◌∙◌, List, [], ◌∷◌, some, ◌==◌, Bool-cases, inl, inr, arith,
  All, subst,
}
use dip_distributed_llm_runt.Gguf.Program.{ret}
use dip_distributed_llm_runt.Gguf.Header.Tables.{
  Trait, ggml_types, find_trait, product, row, others, tensor_bytes,
}

blocks : All (λ t. 0 < t.blck) ggml_types
unfolding ggml_types
blocks = ground arith

find_trait-All :
    (P : Trait → Type 0) (type : ℕ) (t : Trait) (traits : List Trait)
    → All P traits
    → find_trait type traits ≡ some t
    → P t
unfolding find_trait
find_trait-All P type t [] h e = absurd (cc)
find_trait-All P type t (u ∷ traits) (h, hs) e = elim (Bool-cases (u.type_id == type)) [
  | inl this ↦ let same : u ≡ t = ground (arith, this, e) in subst P same h
  | inr other ↦ find_trait-All P type t traits hs (ground (arith, other, e))
]

product-mul : (ds : List ℕ) (n : ℕ) → product ds n ≡ n * product ds 1
product-mul [] n = grind arith
product-mul (d ∷ ds) n = grind (arith, product-mul ds (n * d), product-mul ds (1 * d))

product-row : (dims : List ℕ) → product dims 1 ≡ row dims * product (others dims) 1
product-row [] = grind arith
product-row (d ∷ ds) = grind (arith, product-mul ds (1 * d))

shuffle : (q s b p : ℕ) → q * s * p * b ≡ q * b * p * s
shuffle q s b p = grind arith

tensor_bytes_found :
    (type : ℕ) (dims : List ℕ) (t : Trait)
    → find_trait type ggml_types ≡ some t
    → row dims % t.blck ≡ 0
    → tensor_bytes type dims ≡ ret (product (others dims) (row dims / t.blck * t.size))
unfolding tensor_bytes
tensor_bytes_found type dims t found whole_blocks = ground (arith, found, whole_blocks)

-- The size of a tensor of a known type whose rows are whole blocks is the number of its elements times
-- the size of a block, divided by the elements of a block, with nothing left over.
pub tensor_bytes_lem :
    (type : ℕ) (dims : List ℕ) (t : Trait)
    → find_trait type ggml_types ≡ some t
    → row dims % t.blck ≡ 0
    → (n : ℕ) × (tensor_bytes type dims ≡ ret n)
      × (n * t.blck ≡ product dims 1 * t.size)
      × (0 < t.blck)
tensor_bytes_lem type dims t found whole_blocks =
    let q : ℕ = row dims / t.blck in
    let rows : q * t.blck ≡ row dims = grind (arith, div-add-mod' (row dims) t.blck) in
    let n : ℕ = product (others dims) (q * t.size) in
    (
      n,
      tensor_bytes_found type dims t found whole_blocks,
      ap (λ x. x * t.blck) (product-mul (others dims) (q * t.size))
          ∙ shuffle q t.size t.blck (product (others dims) 1)
          ∙ ap (λ x. x * product (others dims) 1 * t.size) rows
          ∙ ap (λ x. x * t.size) (sym (product-row dims)),
      find_trait-All (λ u. 0 < u.blck) type t ggml_types blocks found,
    )
