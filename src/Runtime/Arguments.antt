-- ===== src/Runtime/Arguments.antt =====
-- runtime/llmlet-runtime.js: `utf8BinaryString`, `contextSizeFromArgs`, `encodePromptForRuntime`, and
-- the checks and the command line with which startRequester begins. A prompt is its UTF-8 bytes.
pub mod Context
pub mod Peers
mod Tests
use dip_distributed_llm_runt.Prelude.{
  ℕ, zero, suc, ◌+◌, ◌-◌, ◌*◌, Bool, true, false, ◌&&◌, ◌||◌, if◌then◌else◌, ite, List, [], ◌∷◌,
  ◌++◌, Option, none, some, String, leb, ltb, ◌==◌, length, take, drop, get_elem?, text_discrete,
  not,
}
use dip_distributed_llm_runt.Prelude.Text.{codes, is_space, is_digit}
use dip_distributed_llm_runt.Runtime.Deferred.{Failure}

abbrev pub default_context_size : ℕ
default_context_size = 4096

abbrev pub block : ℕ
block = 0x8000

-- The loop of `utf8BinaryString` over what is left of the bytes.
unfoldable pub join_blocks : ℕ → List ℕ → List ℕ → List ℕ
join_blocks zero bytes out = out
join_blocks (suc fuel) [] out = out
join_blocks (suc fuel) (b ∷ bytes) out =
    join_blocks fuel (drop block (b ∷ bytes)) (out ++ take block (b ∷ bytes))

-- Each round takes a byte at least, so `length bytes` rounds are enough.
unfoldable pub utf8_binary_string : List ℕ → List ℕ
utf8_binary_string bytes = join_blocks (length bytes) bytes []

unfoldable pub skip_space : List ℕ → List ℕ
skip_space [] = []
skip_space (c ∷ cs) = if is_space c then skip_space cs else c ∷ cs

-- The digits at the front of a text, read after `value`.
unfoldable pub read_digits : ℕ → List ℕ → ℕ
read_digits value [] = value
read_digits value (c ∷ cs) =
    let later = read_digits (value * 10 + (c - b'0')) cs in if is_digit c then later else value

-- The magnitude of a text that begins with a digit; NaN is `none`.
unfoldable pub parse_digits : List ℕ → Option ℕ
parse_digits [] = none
parse_digits (c ∷ cs) = if is_digit c then some (read_digits 0 (c ∷ cs)) else none

-- Number.parseInt(text, 10), with `none` for NaN and for a number that is not positive. (Values past
-- 2 ^ 53, which JavaScript rounds, are exact here.)
unfoldable pub parse_sign : List ℕ → Option ℕ
parse_sign [] = none
parse_sign (c ∷ cs) =
    if c == b'-' then none else if c == b'+' then parse_digits cs else parse_digits (c ∷ cs)

-- `Number.isFinite(parsed) && parsed > 0 ? parsed : DEFAULT_CONTEXT_SIZE`
unfoldable pub positive_or_default : Option ℕ → ℕ
positive_or_default none = default_context_size
positive_or_default (some n) = if leb n 0 then default_context_size else n

-- `args[i + 1]` as a size; undefined is not a number.
unfoldable pub size_of_arg : Option String → ℕ
size_of_arg none = default_context_size
size_of_arg (some text) = positive_or_default (parse_sign (skip_space (codes text)))

abbrev pub is_flag : String → Option String → Bool
is_flag flag none = false
is_flag flag (some text) = ite (text_discrete text flag) true false

-- The loop of `contextSizeFromArgs`, with the indices below `rounds` still to look at.
unfoldable pub scan_args : ℕ → List String → ℕ → ℕ
scan_args zero args otherwise = otherwise
scan_args (suc i) args otherwise =
    let earlier = scan_args i args otherwise in
    if is_flag "-c" (get_elem? args i) then size_of_arg (get_elem? args (suc i)) else earlier

-- `none` is an argument that is not an array.
unfoldable pub context_size_from_args : Option (List String) → ℕ
context_size_from_args none = default_context_size
context_size_from_args (some args) = scan_args (length args - 1) args default_context_size

pub data Encoded : Type 0 where
  fits : List ℕ → Encoded
  too_long : (bytes limit : ℕ) → Encoded

unfoldable pub encode_prompt_for_runtime : List ℕ → ℕ → Encoded
encode_prompt_for_runtime text context_size =
    let encoded = utf8_binary_string text in
    if leb context_size (length encoded)
    then too_long (length encoded) (context_size - 1)
    else fits encoded

abbrev pub includes : String → List String → Bool
includes x [] = false
includes x (y ∷ ys) = ite (text_discrete y x) true (includes x ys)

-- `new Set(ids)`, in order of insertion.
unfoldable pub add_all : List String → List String → List String
add_all [] seen = seen
add_all (x ∷ xs) seen = add_all xs (if includes x seen then seen else seen ++ x ∷ [])

-- The checks of startRequester on `peerIds`: `none` is no complaint.
unfoldable pub check_peer_ids : List String → Option Failure
check_peer_ids [] = some Failure.no_peers
check_peer_ids (x ∷ xs) =
    if length (add_all (x ∷ xs) []) == length (x ∷ xs) then none else some Failure.duplicate_peers

unfoldable pub rpc_arguments : List String → List String
rpc_arguments [] = []
rpc_arguments (peer ∷ peers) = "-rpc" ∷ peer ∷ rpc_arguments peers

-- Module.arguments when the model is prepared: `args`, `-d`, a pair for each peer, and the model.
unfoldable pub module_arguments : List String → List String → List String
module_arguments args peers =
    args ++ ("-d" ∷ (rpc_arguments peers ++ "-m" ∷ "/work/model.gguf" ∷ []))
