-- ===== src/Gguf/Summary/Tests.antt =====
-- Summaries by scripts/probe-gguf-header.mjs of a file with one expert tensor.
use dip_distributed_llm_runt.Prelude.{◌≡◌, ◌↔◌, refl, true, List, [], ◌∷◌, some, All}
use dip_distributed_llm_runt.Prelude.Text.{codes}
use dip_distributed_llm_runt.Gguf.Header.{Tensor}
use dip_distributed_llm_runt.Gguf.Header.Tables.{ggml_types, find_trait}
use dip_distributed_llm_runt.Gguf.Summary.{
  summarise, is_expert, expert_here, ends_or_dot, behind, select, add_types, unsupported, has,
  same_text, type_name, webgpu_mul_mat_id_types, largest,
}
use dip_distributed_llm_runt.Gguf.Summary.Support.{IsSupported, supported_iff}

abbrev plain_tensor : Tensor
plain_tensor = record {
  name = codes "blk.0.ffn_gate.weight";
  dims = 2 ∷ [];
  type = 0;
  offset = 0;
  size = 8;
}

-- An expert tensor of the type IQ4_XS, which MUL_MAT takes and MUL_MAT_ID does not.
abbrev expert_tensor : Tensor
expert_tensor = record {
  name = codes "blk.0.ffn_up_exps.weight";
  dims = 256 ∷ [];
  type = 23;
  offset = 8;
  size = 136;
}

abbrev tensors : List Tensor
tensors = plain_tensor ∷ expert_tensor ∷ []

finds_expert : is_expert (codes "blk.0.ffn_up_exps.weight") ≡ true
unfolding is_expert expert_here ends_or_dot behind
finds_expert = refl

names_unsupported : (summarise tensors).unsupported_for_mul_mat_id ≡ codes "IQ4_XS" ∷ []
unfolding summarise select is_expert expert_here ends_or_dot behind add_types has same_text
    type_name find_trait ggml_types unsupported webgpu_mul_mat_id_types
names_unsupported = refl

finds_largest : (summarise tensors).biggest ≡ some expert_tensor
unfolding summarise largest
finds_largest = refl

supported_iff_example :
    (((summarise tensors).unsupported_for_mul_mat_id ≡ [])
      × ((summarise tensors).unsupported_for_mul_mat ≡ []))
    ↔ All IsSupported tensors
supported_iff_example = supported_iff tensors
