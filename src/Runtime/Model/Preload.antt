-- ===== src/Runtime/Model/Preload.antt =====
-- The chunks that fetchWholeModelToCache of runtime/llmlet-runtime.js stores.
use dip_distributed_llm_runt.Prelude.{
  ℕ, ℕ_discrete, subst, ◌+◌, ◌*◌, ◌≤◌, ◌<◌, ◌≡◌, sym, ap, ◌∙◌, List, [], ◌∷◌, ◌++◌, some, arith,
  length, take, drop, min, take_all, drop_all, append_assoc, append-nil, ltb, if-cases, dec_le,
}
use dip_distributed_llm_runt.Prelude.Dict
use dip_distributed_llm_runt.Runtime.Model.{
  ChunkKey-discrete, ChunkStore, put, Download, copy_value, download, fetch_whole_model_to_cache,
  chunk_key,
}
use dip_distributed_llm_runt.Runtime.Model.Filling.{mul-below, Holds, copy_value-Holds}

-- All the bytes of the reader's values.
abbrev pub flat : List (List ℕ) → List ℕ
flat [] = []
flat (value ∷ values) = value ++ flat values

download-Holds :
    (m : ℕ) (bytes : List ℕ) (values : List (List ℕ)) (d : Download)
    → Holds m bytes d
    → Holds m (bytes ++ flat values) (download m values d)
unfolding download
download-Holds m bytes [] d h = subst (λ l. Holds m l d) (sym (append-nil bytes)) h
download-Holds m bytes (value ∷ values) d h =
    let next : Download = copy_value m (length value) value d in
    subst (λ l. Holds m l (download m values next)) (append_assoc bytes value (flat values))
      (download-Holds m (bytes ++ value) values next
        (copy_value-Holds m (length value) bytes value d h (omega arith)))

module _ (m : ℕ) (bytes : List ℕ) (d : Download) (h : Holds m bytes d) (i : ℕ)
    (lt : i * m < length bytes) where
  -- A chunk that was full before the end.
  whole_chunk :
      i < h.k
      → Dict.get ChunkKey-discrete (chunk_key m (length bytes) i) d.store
        ≡ some (take m (drop (i * m) bytes))
  whole_chunk below =
      let before : i * m + m ≤ h.k * m = mul-below i h.k m below in
      let end : min (i * m + m) (length bytes) ≡ i * m + m = omega (arith, h.size) in
      ap (λ e. Dict.get ChunkKey-discrete (record { begin = i * m; stop = e }) d.store) end
      ∙ h.stored i below

  index_le : i ≤ h.k
  index_le = elim (dec_le i h.k) [
    | yes le ↦ le
    | no gt ↦
        let above : h.k * m + m ≤ i * m = mul-below h.k i m (omega arith) in
        absurd (omega (arith, h.size, h.room))
  ]

  tail_put :
      Dict.get ChunkKey-discrete (chunk_key m (length bytes) i) (
        put
          (record { begin = d.chunk_position; stop = d.chunk_position + length d.chunk })
          d.chunk
          d.store)
      ≡ some (take m (drop (i * m) bytes))
  tail_put = elim (ℕ_discrete i h.k) [
    | yes same ↦
        let at : i * m ≡ h.k * m = ap (λ j. j * m) same in
        let end : min (i * m + m) (length bytes) ≡ d.chunk_position + length d.chunk =
          omega (arith, at, h.size, h.room, h.position) in
        let key : chunk_key m (length bytes) i
            ≡ record { begin = d.chunk_position; stop = d.chunk_position + length d.chunk } =
          ap (λ p. record { begin = p; stop = min (i * m + m) (length bytes) })
            (at ∙ sym h.position)
          ∙ ap (λ e. record { begin = d.chunk_position; stop = e }) end in
        ap
          (λ k. Dict.get ChunkKey-discrete k (
            put (record { begin = d.chunk_position; stop = d.chunk_position + length d.chunk })
              d.chunk d.store))
          key
        ∙ Dict.get-set_self ChunkKey-discrete
            (record { begin = d.chunk_position; stop = d.chunk_position + length d.chunk }) d.chunk
            d.store
        ∙ ap some (
            sym (take_all m d.chunk (omega (arith, h.room)))
            ∙ ap (take m) (h.buffer ∙ ap (λ p. drop p bytes) (sym at)))
    | no other ↦
        let below : i < h.k = omega (arith, index_le) in
        let before : i * m + m ≤ h.k * m = mul-below i h.k m below in
        Dict.get-set_ne ChunkKey-discrete (chunk_key m (length bytes) i)
          (record { begin = d.chunk_position; stop = d.chunk_position + length d.chunk }) d.chunk
          d.store
          (λ same.
            let begins : d.chunk_position ≡ i * m = ap (λ key. key.begin) same in
            absurd (omega (arith, h.position, h.room)))
        ∙ whole_chunk below
  ]

-- For a positive CHUNK_MAX: once the whole file has been fetched, however the network cut it, the key
-- that a read of any chunk below the file's end asks for is in the cache, whatever was there before,
-- and holds the bytes of that chunk.
pub preload_hit :
    (m i : ℕ) (values : List (List ℕ)) (store : ChunkStore)
    → 0 < m
    → i * m < length (flat values)
    → Dict.get ChunkKey-discrete
        (chunk_key m (length (flat values)) i)
        (fetch_whole_model_to_cache m values store)
      ≡ some (take m (drop (i * m) (flat values)))
unfolding fetch_whole_model_to_cache
preload_hit m i values store pos lt =
    let start : Download = record { chunk = []; chunk_position = 0; store = store } in
    let begun : Holds m [] start = record {
      k = 0;
      position = omega arith;
      buffer = sym (drop_all (0 * m) [] (omega arith));
      size = omega arith;
      room = pos;
      stored = λ i lt. absurd (omega arith);
    } in
    let d : Download = download m values start in
    let h : Holds m (flat values) d = download-Holds m [] values start begun in
    if-cases
      (λ s.
        Dict.get ChunkKey-discrete (chunk_key m (length (flat values)) i) s
        ≡ some (take m (drop (i * m) (flat values))))
      (ltb 0 (length d.chunk)) (λ e. tail_put m (flat values) d h i lt)
      (λ e. whole_chunk m (flat values) d h i lt (
        let empty : length d.chunk ≡ 0 = ground arith in
        let le : i ≤ h.k = index_le m (flat values) d h i lt in
        elim (ℕ_discrete i h.k) [
          | yes same ↦
              let at : i * m ≡ h.k * m = ap (λ j. j * m) same in absurd (omega (arith, h.size, lt))
          | no other ↦ omega arith
        ]))
