-- ===== src/Runtime/Arguments/Tests.antt =====
-- Runs of the argument handling, and its theorems at concrete inputs.
use dip_distributed_llm_runt.Prelude.{
  ℕ, ◌⊎◌, ◌-◌, ◌≤◌, ◌≡◌, refl, List, [], ◌∷◌, some, ◌+◌, length, text_discrete, text_apart,
}
use dip_distributed_llm_runt.Runtime.Deferred.{Failure}
use dip_distributed_llm_runt.Prelude.Text.{is_space}
use dip_distributed_llm_runt.Runtime.Arguments.{
  fits, too_long, encode_prompt_for_runtime, context_size_from_args, scan_args, size_of_arg,
  positive_or_default, parse_sign, parse_digits, read_digits, skip_space, check_peer_ids, add_all,
  module_arguments,
}
use dip_distributed_llm_runt.Runtime.Arguments.Context.{
  encode_prompt_cases, last_context, module_arguments_context,
}

last_wins : context_size_from_args (some ("-c" ∷ "512" ∷ "-c" ∷ " 2048x" ∷ "-c" ∷ [])) ≡ 2048
unfolding context_size_from_args scan_args size_of_arg positive_or_default parse_sign parse_digits
    read_digits skip_space is_space text_discrete
last_wins = refl

negative_size : context_size_from_args (some ("-c" ∷ "-8" ∷ [])) ≡ 4096
unfolding context_size_from_args scan_args size_of_arg positive_or_default parse_sign parse_digits
    read_digits skip_space is_space text_discrete
negative_size = refl

twice : check_peer_ids ("a" ∷ "b" ∷ "a" ∷ []) ≡ some Failure.duplicate_peers
unfolding check_peer_ids add_all text_discrete
twice = refl

abbrev greeting : List ℕ
greeting = 104 ∷ 105 ∷ []

encode_prompt_cases_example :
    ((length greeting + 1 ≤ 2) × (encode_prompt_for_runtime greeting 2 ≡ fits greeting))
    ⊎ ((2 ≤ length greeting)
        × (encode_prompt_for_runtime greeting 2 ≡ too_long (length greeting) (2 - 1)))
encode_prompt_cases_example = encode_prompt_cases greeting 2

module_arguments_context_example :
    (context_size_from_args (some ("-c" ∷ "512" ∷ [])) ≡ last_context ("-c" ∷ "512" ∷ []) 4096)
    × (context_size_from_args (some (module_arguments ("-c" ∷ "512" ∷ []) ("p" ∷ [])))
        ≡ last_context ("-c" ∷ "512" ∷ []) 4096)
module_arguments_context_example =
    module_arguments_context ("-c" ∷ "512" ∷ []) ("p" ∷ []) (text_apart "512" "-c" refl)
      (text_apart "p" "-c" refl, tt)

sized_by_caller : last_context ("-c" ∷ "512" ∷ []) 4096 ≡ 512
unfolding size_of_arg positive_or_default parse_sign parse_digits read_digits skip_space is_space
    text_discrete
sized_by_caller = refl
