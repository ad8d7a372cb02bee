-- ===== src/Runtime/Output/Tests.antt =====
-- Output of runtime/llmlet-runtime.js through a decoder that joins two bytes to one character.
use dip_distributed_llm_runt.Prelude.{ℕ, ◌*◌, ◌+◌, ◌≡◌, refl, ap, List, [], ◌∷◌, Option, none, some}
use dip_distributed_llm_runt.Runtime.Output.{Text, Decoder, flush_output, bytes_output}
use dip_distributed_llm_runt.Runtime.Output.Streaming.{flat, streamed, low, output_text}

-- Half a character may be pending.
abbrev pairs_push : Option ℕ → ℕ → Text × Option ℕ
pairs_push none b = ([], some b)
pairs_push (some a) b = ((a * 256 + b) ∷ [], none)

abbrev pairs_finish : Option ℕ → Text
pairs_finish none = []
pairs_finish (some a) = 0xfffd ∷ []

abbrev pairs : Decoder (Option ℕ)
pairs = record { fresh = none; push = pairs_push; finish = pairs_finish }

abbrev decode_pairs : List ℕ → Text
decode_pairs [] = []
decode_pairs (a ∷ []) = 0xfffd ∷ []
decode_pairs (a ∷ b ∷ bs) = (a * 256 + b) ∷ decode_pairs bs

streamed-decode_pairs : (bs : List ℕ) → streamed pairs none bs ≡ decode_pairs bs
streamed-decode_pairs [] = refl
streamed-decode_pairs (a ∷ []) = refl
streamed-decode_pairs (a ∷ b ∷ bs) = ap (λ t. (a * 256 + b) ∷ t) (streamed-decode_pairs bs)

output_text_example :
    flat
      (flush_output pairs
        (bytes_output pairs (1 ∷ 2 ∷ 259 ∷ []) (record { decoder = none; emitted = [] }))).emitted
    ≡ decode_pairs (low pairs (1 ∷ 2 ∷ 259 ∷ []))
output_text_example = output_text pairs decode_pairs (1 ∷ 2 ∷ 259 ∷ []) streamed-decode_pairs
