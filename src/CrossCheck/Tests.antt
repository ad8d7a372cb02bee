-- ===== src/CrossCheck/Tests.antt =====
-- Comparisons of scripts/crosscheck-gguf-probe.mjs on a file of one tensor.
use dip_distributed_llm_runt.Prelude.{
  ℕ, ◌≡◌, ◌≢◌, ◌↔◌, refl, true, false, [], ◌∷◌, none, some, All, ◌==◌, ltb, leb, ◌*◌, ◌-◌, ◌+◌,
  if◌then◌else◌, ℕ_discrete,
}
use dip_distributed_llm_runt.Prelude.Text.{codes}
use dip_distributed_llm_runt.Prelude.Dict
use dip_distributed_llm_runt.CrossCheck.Values.{
  Text-discrete, strict_equal, close_to, is_boolean, string_of, Text, Doubles, text, number,
  boolean, absent, same_number, as_number, is_string,
}
use dip_distributed_llm_runt.CrossCheck.{
  Probe, Dump, same_item, plain, items, compare, problems, identity, tensor_problems, each,
  check_tensor, check_extra, check_hparam, check_array, add_tensors, same_dims, note_unless,
  content_json, value_of, or_null, same_hparam, check_items,
}
use dip_distributed_llm_runt.CrossCheck.Run.{
  check_models, check_http, both, missing, code, main, models_of, index_of, keep_models,
  starts_with,
}
use dip_distributed_llm_runt.CrossCheck.Passes.{ReadingAgrees, HttpAgrees, main_passes_iff}

-- Doubles that are whole numbers of one digit.
abbrev first_digit : Text → ℕ
first_digit [] = 0
first_digit (c ∷ cs) = c - b'0'

abbrev digits : Doubles ℕ
digits = record {
  number = first_digit;
  print = λ d. (b'0' + d) ∷ [];
  is_finite = λ d. true;
  same = λ a b. a == b;
  at_most = leb;
  abs = λ d. d;
  max = λ a b. if ltb a b then b else a;
  minus = λ a b. a - b;
  times = λ a b. a * b;
  slack = 0;
}

abbrev probe : Probe ℕ
probe = record {
  architecture = text (codes "llama");
  tokenizer_pre = absent;
  has_chat_template = false;
  tensor_count = 1;
  tensors = some (record { name = codes "w"; type_name = codes "F32"; dims = codes "2" ∷ [] } ∷ []);
  hparams = (codes "llama.block_count", text (codes "3")) ∷ [];
  array_fields = (codes "t", record { length_ = 2; sample = text (codes "a") ∷ [] }) ∷ [];
}

abbrev dump : Dump ℕ
dump = record {
  metadata =
      (
        codes "general.architecture",
        record { type_name = codes "STRING"; content = plain (text (codes "llama")) },
      )
      ∷ (
        codes "llama.block_count",
        record { type_name = codes "UINT32"; content = plain (number 3) },
      )
      ∷ (
        codes "t",
        record {
          type_name = codes "ARRAY";
          content = items [] (text (codes "a") ∷ text (codes "b") ∷ []);
        },
      )
      ∷ [];
  tensors = (codes "w", record { type_name = codes "F32"; shape = 2 ∷ [] }) ∷ [];
}

main_passes_iff_example : (main digits true (both probe dump ∷ []) none ≡ code 0) ↔ (
    (true ≡ true)
    × ((both probe dump ∷ []) ≢ [])
    × All (ReadingAgrees digits) (both probe dump ∷ [])
    × HttpAgrees digits none)
main_passes_iff_example = main_passes_iff digits true (both probe dump ∷ []) none

passes : main digits true (both probe dump ∷ []) none ≡ code 0
unfolding main check_models check_http compare problems identity note_unless strict_equal value_of
    Dict.get Text-discrete tensor_problems each check_tensor check_extra check_hparam check_array
    add_tensors same_dims content_json or_null same_hparam check_items same_item same_number
    as_number close_to is_string is_boolean string_of Dict.set ℕ_discrete
passes = refl

-- A model that is not there makes the check fail, whatever the others say.
fails : main digits true (missing ∷ both probe dump ∷ []) none ≡ code 1
unfolding main check_models check_http compare problems identity note_unless strict_equal value_of
    Dict.get Text-discrete tensor_problems each check_tensor check_extra check_hparam check_array
    add_tensors same_dims content_json or_null same_hparam check_items same_item same_number
    as_number close_to is_string is_boolean string_of Dict.set ℕ_discrete
fails = refl

-- Two booleans are never the same item: sameNumber takes neither for a number.
booleans_differ : same_item digits (boolean true) (boolean true) ≡ false
unfolding same_item same_number as_number is_string
booleans_differ = refl

-- The value after an option is no model.
finds_models :
    models_of (codes "a" ∷ codes "--port" ∷ codes "9" ∷ codes "b" ∷ codes "--http" ∷ codes "c" ∷ [])
    ≡ codes "a" ∷ codes "b" ∷ []
unfolding Text-discrete ℕ_discrete models_of index_of keep_models starts_with
finds_models = refl
