-- ===== src/Runtime/Output.antt =====
-- runtime/llmlet-runtime.js: createUtf8Output.
--
-- The TextDecoder of the browser is a parameter: its state, what it gives for one more byte of a stream,
-- and what it gives for the end of one, after which it is as new.
pub mod Streaming
mod Tests
use dip_distributed_llm_runt.Prelude.{
  ℕ, ◌%◌, Bool, true, false, if◌then◌else◌, List, [], ◌∷◌, ◌++◌, Option, none, some,
}
use dip_distributed_llm_runt.Prelude.Text.{codes}

abbrev pub Text : Type 0
Text = List ℕ

pub record Decoder (S : Type 0) : Type 0 where
  pub fresh : S
  pub push : S → ℕ → Text × S
  pub finish : S → Text

-- The decoder, and the texts given to onText, in order.
pub record Output (S : Type 0) : Type 0 where
  pub decoder : S
  pub emitted : List Text

-- `if (text) emit(onText, text)`
unfoldable pub emit_text : Text → List Text → List Text
emit_text [] emitted = emitted
emit_text (c ∷ cs) emitted = emitted ++ ((c ∷ cs) ∷ [])

module _ {S : Type 0} (d : Decoder S) where
  unfoldable pub flush_output : Output S → Output S
  flush_output o = record { decoder = d.fresh; emitted = emit_text (d.finish o.decoder) o.emitted }

  unfoldable pub line_output : Text → Output S → Output S
  line_output value o = record o { emitted = o.emitted ++ ((value ++ (10 ∷ [])) ∷ []) }

  -- `none` is null. `value & 0xff` of a value that is not negative.
  unfoldable pub byte_output : Option ℕ → Output S → Output S
  byte_output none o = flush_output o
  byte_output (some value) o =
      let (text, next) = d.push o.decoder (value % 256) in
      record { decoder = next; emitted = emit_text text o.emitted }

  unfoldable pub bytes_output : List ℕ → Output S → Output S
  bytes_output [] o = o
  bytes_output (b ∷ bs) o = bytes_output bs (byte_output (some b) o)
