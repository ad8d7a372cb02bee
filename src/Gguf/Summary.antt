-- ===== src/Gguf/Summary.antt =====
-- summarise of scripts/probe-gguf-header.mjs: what the probe says of the tensors of a file.
--
-- The architecture and the fields that belong to it are left out: they print values of any kind.
pub mod Support
mod Tests
use dip_distributed_llm_runt.Prelude.{
  ℕ, zero, suc, ◌+◌, Bool, true, false, not, ◌&&◌, ◌||◌, if◌then◌else◌, List, [], ◌∷◌, ◌++◌, Option,
  none, some, ltb, ◌==◌, ℕ_discrete,
}
use dip_distributed_llm_runt.Prelude.Text.{codes}
use dip_distributed_llm_runt.Prelude.Decimal.{decimal}
use dip_distributed_llm_runt.Prelude.Dict
use dip_distributed_llm_runt.Prelude.Dict.{Dict}
use dip_distributed_llm_runt.Gguf.Header.{Tensor, Text-discrete}
use dip_distributed_llm_runt.Gguf.Header.Tables.{ggml_types, find_trait}

abbrev pub Text : Type 0
Text = List ℕ

unfoldable pub same_text : Text → Text → Bool
same_text [] [] = true
same_text (a ∷ as_) (b ∷ bs) = (a == b) && same_text as_ bs
same_text as_ bs = false

-- `Set.has`, on the members in the order they came in.
unfoldable pub has : Text → List Text → Bool
has t [] = false
has t (u ∷ us) = same_text u t || has t us

unfoldable pub webgpu_mul_mat_id_types : List Text
webgpu_mul_mat_id_types =
    codes "F32"
    ∷ codes "F16"
    ∷ codes "Q4_0"
    ∷ codes "Q4_1"
    ∷ codes "Q5_0"
    ∷ codes "Q5_1"
    ∷ codes "Q8_0"
    ∷ codes "Q2_K"
    ∷ codes "Q3_K"
    ∷ codes "Q4_K"
    ∷ codes "Q5_K"
    ∷ codes "Q6_K"
    ∷ []

unfoldable pub webgpu_mul_mat_types : List Text
webgpu_mul_mat_types =
    codes "F32"
    ∷ codes "F16"
    ∷ codes "Q4_0"
    ∷ codes "Q4_1"
    ∷ codes "Q5_0"
    ∷ codes "Q5_1"
    ∷ codes "Q8_0"
    ∷ codes "Q2_K"
    ∷ codes "Q3_K"
    ∷ codes "Q4_K"
    ∷ codes "Q5_K"
    ∷ codes "Q6_K"
    ∷ codes "IQ2_XXS"
    ∷ codes "IQ2_XS"
    ∷ codes "IQ2_S"
    ∷ codes "IQ3_XXS"
    ∷ codes "IQ3_S"
    ∷ codes "IQ1_S"
    ∷ codes "IQ1_M"
    ∷ codes "IQ4_NL"
    ∷ codes "IQ4_XS"
    ∷ []

-- `GGML_TYPES.get(type)?.name ?? ..`
unfoldable pub type_name : ℕ → Text
type_name type = elim (find_trait type ggml_types) [
  | none ↦ codes "type" ++ decimal type
  | some t ↦ codes t.name
]

-- What is left of a text behind a prefix.
unfoldable pub behind : Text → Text → Option Text
behind [] t = some t
behind (c ∷ cs) [] = none
behind (c ∷ cs) (d ∷ ds) = if c == d then behind cs ds else none

-- `(\.|$)`
unfoldable pub ends_or_dot : Option Text → Bool
ends_or_dot none = false
ends_or_dot (some []) = true
ends_or_dot (some (c ∷ cs)) = c == b'.'

unfoldable pub expert_here : Text → Bool
expert_here t =
    ends_or_dot (behind (codes ".ffn_gate_exps") t)
    || ends_or_dot (behind (codes ".ffn_up_exps") t)
    || ends_or_dot (behind (codes ".ffn_down_exps") t)
    || ends_or_dot (behind (codes ".ffn_gate_up_exps") t)

-- `EXPERT_TENSOR.test`
unfoldable pub is_expert : Text → Bool
is_expert [] = false
is_expert (c ∷ cs) = expert_here (c ∷ cs) || is_expert cs

abbrev pub starts : Text → Text → Bool
starts needle t = elim (behind needle t) [ none ↦ false | some rest ↦ true ]

-- `includes`, for a needle that is not empty.
unfoldable pub includes : Text → Text → Bool
includes needle [] = false
includes needle (c ∷ cs) = starts needle (c ∷ cs) || includes needle cs

unfoldable pub ends_with : Text → Text → Bool
ends_with needle [] = same_text needle []
ends_with needle (c ∷ cs) = same_text needle (c ∷ cs) || ends_with needle cs

unfoldable pub select : (Tensor → Bool) → List Tensor → List Tensor
select p [] = []
select p (t ∷ ts) = if p t then t ∷ select p ts else select p ts

unfoldable pub any : (Tensor → Bool) → List Tensor → Bool
any p [] = false
any p (t ∷ ts) = p t || any p ts

-- `new Set(tensors.map((t) => t.typeName))`, into the set so far.
unfoldable pub add_types : List Tensor → List Text → List Text
add_types [] set = set
add_types (t ∷ ts) set =
    if has (type_name t.type) set
    then add_types ts set
    else add_types ts (set ++ (type_name t.type ∷ []))

unfoldable pub unsupported : List Text → List Text → List Text
unsupported known [] = []
unsupported known (t ∷ ts) = if has t known then unsupported known ts else t ∷ unsupported known ts

unfoldable pub count_of : Option ℕ → ℕ
count_of none = 0
count_of (some n) = n

unfoldable pub count_types : List Tensor → Dict Text ℕ → Dict Text ℕ
count_types [] counts = counts
count_types (t ∷ ts) counts =
    let name = type_name t.type in
    count_types ts
      (Dict.set Text-discrete name (count_of (Dict.get Text-discrete name counts) + 1) counts)

unfoldable pub total_size : List Tensor → ℕ → ℕ
total_size [] n = n
total_size (t ∷ ts) n = total_size ts (n + t.size)

-- The first of the largest.
unfoldable pub largest : List Tensor → Option Tensor → Option Tensor
largest [] best = best
largest (t ∷ ts) none = largest ts (some t)
largest (t ∷ ts) (some b) = if ltb b.size t.size then largest ts (some t) else largest ts (some b)

pub record Summary : Type 0 where
  pub by_type : Dict Text ℕ
  pub total_bytes : ℕ
  pub biggest : Option Tensor
  pub biggest_expert : Option Tensor
  pub nextn : List Tensor
  pub experts : List Tensor
  pub expert_types : List Text
  pub non_expert_types : List Text
  pub fused : Bool
  pub split : Bool
  pub expert_bias : List Tensor
  pub unsupported_for_mul_mat_id : List Text
  pub unsupported_for_mul_mat : List Text

unfoldable pub summarise : List Tensor → Summary
summarise ts =
    let experts = select (λ t. is_expert t.name) ts in
    let expert_types = add_types experts [] in
    let non_expert_types = add_types (select (λ t. not (is_expert t.name)) ts) [] in
    record {
      by_type = count_types ts [];
      total_bytes = total_size ts 0;
      biggest = largest ts none;
      biggest_expert = largest experts none;
      nextn = select (λ t. includes (codes "nextn") t.name) ts;
      experts = experts;
      expert_types = expert_types;
      non_expert_types = non_expert_types;
      fused = any (λ t. includes (codes "ffn_gate_up_exps") t.name) ts;
      split = any (λ t. includes (codes "ffn_gate_exps") t.name) ts;
      expert_bias = select (λ t. is_expert t.name && ends_with (codes ".bias") t.name) ts;
      unsupported_for_mul_mat_id = unsupported webgpu_mul_mat_id_types expert_types;
      unsupported_for_mul_mat = unsupported webgpu_mul_mat_types non_expert_types;
    }
