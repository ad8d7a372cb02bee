-- ===== src/Runtime/Arguments/Context.antt =====
-- Prompt encoding and context size of runtime/llmlet-runtime.js.
use dip_distributed_llm_runt.Prelude.{
  dec_le, inl, inr, ◌⊎◌, ℕ, zero, suc, ◌+◌, ◌-◌, ◌≤◌, ◌≡◌, ◌≢◌, refl, ◌∙◌, sym, ap, if◌then◌else◌,
  List, [], ◌∷◌, ◌++◌, some, String, arith, length, take, drop, text_discrete, append_assoc,
  append-nil, length-drop, take-append-drop, All, if_neg, text_apart,
}
use dip_distributed_llm_runt.Runtime.Arguments.{
  default_context_size, block, join_blocks, utf8_binary_string, size_of_arg, is_flag, scan_args,
  too_long, context_size_from_args, fits, encode_prompt_for_runtime, rpc_arguments,
  module_arguments,
}

join_blocks-append :
    (fuel : ℕ) (bytes out : List ℕ)
    → length bytes ≤ fuel
    → join_blocks fuel bytes out ≡ out ++ bytes
unfolding join_blocks
join_blocks-append zero [] out h = sym (append-nil out)
join_blocks-append zero (b ∷ bytes) out h = absurd (omega arith)
join_blocks-append (suc fuel) [] out h = sym (append-nil out)
join_blocks-append (suc fuel) (b ∷ bytes) out h =
    join_blocks-append fuel (drop block (b ∷ bytes)) (out ++ take block (b ∷ bytes))
      (omega (arith, length-drop block (b ∷ bytes)))
    ∙ append_assoc out (take block (b ∷ bytes)) (drop block (b ∷ bytes))
    ∙ ap (◌++◌ out) (take-append-drop block (b ∷ bytes))

utf8_binary_string_lem : (bytes : List ℕ) → utf8_binary_string bytes ≡ bytes
unfolding utf8_binary_string
utf8_binary_string_lem bytes = join_blocks-append (length bytes) bytes [] (omega arith)

-- A prompt whose bytes and a terminating NUL fit a buffer of n_ctx bytes is encoded, and the blockwise
-- encoding gives back every byte of it. Any other is refused with its length and the largest one there is
-- room for; it is never cut.
pub encode_prompt_cases :
    (text : List ℕ) (context_size : ℕ)
    → ((length text + 1 ≤ context_size) × (encode_prompt_for_runtime text context_size ≡ fits text))
      ⊎ ((context_size ≤ length text)
          × (encode_prompt_for_runtime text context_size
              ≡ too_long (length text) (context_size - 1)))
unfolding encode_prompt_for_runtime
encode_prompt_cases text n = elim (dec_le n (length text)) [
  | yes le ↦ inr (le, rw (utf8_binary_string_lem text) (ground (arith, le)))
  | no gt ↦ inl (omega (arith, gt), rw (utf8_binary_string_lem text) (ground (arith, gt)))
]

-- A reading of the arguments from the left, in which the last `-c` that a value follows wins.
abbrev pub last_context : List String → ℕ → ℕ
last_context [] otherwise = otherwise
last_context (a ∷ []) otherwise = otherwise
last_context (a ∷ b ∷ args) otherwise =
    last_context (b ∷ args) (if is_flag "-c" (some a) then size_of_arg (some b) else otherwise)

scan_args-cons :
    (n : ℕ) (a b : String) (args : List String) (otherwise : ℕ)
    → scan_args (suc n) (a ∷ b ∷ args) otherwise
      ≡ scan_args n (b ∷ args) (if is_flag "-c" (some a) then size_of_arg (some b) else otherwise)
unfolding scan_args
scan_args-cons zero a b args otherwise = refl
scan_args-cons (suc n) a b args otherwise = rw (scan_args-cons n a b args otherwise)

scan_args-last :
    (args : List String) (otherwise : ℕ)
    → scan_args (length args - 1) args otherwise ≡ last_context args otherwise
unfolding scan_args
scan_args-last [] otherwise = refl
scan_args-last (a ∷ []) otherwise = refl
scan_args-last (a ∷ b ∷ args) otherwise =
    let after = if is_flag "-c" (some a) then size_of_arg (some b) else otherwise in
    let one_less : suc (suc (length args)) - 1 ≡ suc (length args) = omega arith in
    let two_less : length args ≡ suc (length args) - 1 = omega arith in
    ap (λ k. scan_args k (a ∷ b ∷ args) otherwise) one_less
    ∙ scan_args-cons (length args) a b args otherwise
    ∙ ap (λ k. scan_args k (b ∷ args) after) two_less
    ∙ scan_args-last (b ∷ args) after

-- The adapter's scan from the right finds what a reader from the left keeps: the value of the last `-c`
-- that has one, and the default where there is none.
pub context_size_last :
    (args : List String)
    → context_size_from_args (some args) ≡ last_context args default_context_size
unfolding context_size_from_args
context_size_last args = scan_args-last args default_context_size

-- The last argument is not the flag.
abbrev pub LastIsNot : String → List String → Type 0
LastIsNot flag [] = Unit {0}
LastIsNot flag (a ∷ []) = a ≢ flag
LastIsNot flag (a ∷ b ∷ args) = LastIsNot flag (b ∷ args)

last_context-append :
    (args : List String) (x : String) (rest : List String) (otherwise : ℕ)
    → LastIsNot "-c" args
    → last_context (args ++ x ∷ rest) otherwise
      ≡ last_context (x ∷ rest) (last_context args otherwise)
last_context-append [] x rest otherwise h = refl
last_context-append (a ∷ []) x rest otherwise h = rw (if_neg (text_discrete a "-c") h)
last_context-append (a ∷ b ∷ args) x rest otherwise h = last_context-append (b ∷ args) x rest _ h

last_context-other :
    (args : List String) (otherwise : ℕ)
    → All (λ a. a ≢ "-c") args
    → last_context args otherwise ≡ otherwise
last_context-other [] otherwise h = refl
last_context-other (a ∷ []) otherwise h = refl
last_context-other (a ∷ b ∷ args) otherwise h =
    rw (if_neg (text_discrete a "-c") h.0) (last_context-other (b ∷ args) otherwise h.1)

rpc_arguments-All :
    (peers : List String)
    → All (λ a. a ≢ "-c") peers
    → All (λ a. a ≢ "-c") (rpc_arguments peers ++ "-m" ∷ "/work/model.gguf" ∷ [])
unfolding rpc_arguments
rpc_arguments-All [] h = (text_apart "-m" "-c" refl, (text_apart "/work/model.gguf" "-c" refl, tt))
rpc_arguments-All (p ∷ peers) h = (text_apart "-rpc" "-c" refl, (h.0, rpc_arguments-All peers h.1))

-- Both the caller's arguments and the whole command line made of them have the context size that a reading
-- from the left finds in the caller's: that of the last `-c` with a value after it, as size_of_arg reads the
-- value, and 4096 where there is none.
-- So nothing that the adapter appends changes the size that it checked the prompts by. No peer is called `-c`
-- and the caller's arguments do not end in a bare `-c`.
pub module_arguments_context :
    (args peers : List String)
    → LastIsNot "-c" args
    → All (λ a. a ≢ "-c") peers
    → (context_size_from_args (some args) ≡ last_context args 4096)
      × (context_size_from_args (some (module_arguments args peers)) ≡ last_context args 4096)
unfolding module_arguments
module_arguments_context args peers h k =
    let appended = "-d" ∷ (rpc_arguments peers ++ "-m" ∷ "/work/model.gguf" ∷ []) in
    (
      context_size_last args,
      context_size_last (args ++ appended)
          ∙ last_context-append args "-d" (rpc_arguments peers ++ "-m" ∷ "/work/model.gguf" ∷ []) _
              h
          ∙ last_context-other appended _ (text_apart "-d" "-c" refl, rpc_arguments-All peers k),
    )
