-- ===== src/Runtime/Output/Streaming.antt =====
-- The text of a stream of bytes.
use dip_distributed_llm_runt.Prelude.{
  ℕ, ◌%◌, ◌≡◌, refl, ap, sym, ◌∙◌, List, [], ◌∷◌, ◌++◌, map, append-nil, append_assoc, some,
}
use dip_distributed_llm_runt.Runtime.Output.{
  Text, Decoder, Output, emit_text, flush_output, byte_output, bytes_output,
}

abbrev pub flat : List Text → Text
flat [] = []
flat (t ∷ ts) = t ++ flat ts

flat-append : (ts us : List Text) → flat (ts ++ us) ≡ flat ts ++ flat us
flat-append [] us = refl
flat-append (t ∷ ts) us =
    ap (λ x. t ++ x) (flat-append ts us) ∙ sym (append_assoc t (flat ts) (flat us))

emit_text-flat : (t : Text) (ts : List Text) → flat (emit_text t ts) ≡ flat ts ++ t
unfolding emit_text
emit_text-flat [] ts = sym (append-nil (flat ts))
emit_text-flat (c ∷ cs) ts =
    flat-append ts ((c ∷ cs) ∷ []) ∙ ap (λ x. flat ts ++ x) (append-nil (c ∷ cs))

module _ {S : Type 0} (d : Decoder S) where
  -- What a decoder gives for the rest of a stream.
  abbrev pub streamed : S → List ℕ → Text
  streamed s [] = d.finish s
  streamed s (b ∷ bs) = (d.push s b).0 ++ streamed (d.push s b).1 bs

  abbrev pub low : List ℕ → List ℕ
  low = map λ b. b % 256

  bytes_output-flat :
      (bs : List ℕ) (o : Output S)
      → flat (flush_output d (bytes_output d bs o)).emitted
        ≡ flat o.emitted ++ streamed o.decoder (low bs)
  unfolding bytes_output flush_output byte_output
  bytes_output-flat [] o = emit_text-flat (d.finish o.decoder) o.emitted
  bytes_output-flat (b ∷ bs) o =
      bytes_output-flat bs (byte_output d (some b) o)
      ∙ ap (λ x. x ++ streamed (d.push o.decoder (b % 256)).1 (low bs))
          (emit_text-flat (d.push o.decoder (b % 256)).0 o.emitted)
      ∙ append_assoc (flat o.emitted) _ _

  -- Where the decoder makes `decode bytes` of any stream of bytes, the bytes that the module writes one at a
  -- time, followed by flush, give onText the text of them all, cut into pieces: a character that spans
  -- several bytes is neither lost nor doubled. Only the low eight bits of a value count.
  pub output_text :
      (decode : List ℕ → Text) (bs : List ℕ)
      → ((xs : List ℕ) → streamed d.fresh xs ≡ decode xs)
      → flat
          (flush_output d (bytes_output d bs (record { decoder = d.fresh; emitted = [] }))).emitted
        ≡ decode (low bs)
  output_text decode bs h =
      bytes_output-flat bs (record { decoder = d.fresh; emitted = [] }) ∙ h (low bs)
