-- ===== src/Runtime/Source/Loads.antt =====
-- The chunks that a prepared model serves: prepareModel, the preload and the load of a chunk together.
use dip_distributed_llm_runt.Prelude.{
  ℕ, ◌*◌, ◌<◌, ◌≡◌, refl, ap, sym, subst, inl, inr, Bool, List, none, some, take, drop, length,
  Option-cases,
}
use dip_distributed_llm_runt.Prelude.Dict
use dip_distributed_llm_runt.Runtime.Model.{
  ChunkKey, ChunkKey-discrete, ChunkStore, Node, chunk_key, chunk_loaded,
}
use dip_distributed_llm_runt.Runtime.Source.{
  Server, ModelSource, Prepared, Origin, file, url, other, prepared, prepare_model, fetch_range,
  load_chunk, finish_load,
}
use dip_distributed_llm_runt.Runtime.Source.Ready.{
  Holds, Truthful, IsReady, file-IsReady, url-IsReady,
}

load_missing :
    (key : ChunkKey) (origin : Origin) (accepted : Bool) (store : ChunkStore) (bytes : List ℕ)
    → fetch_range origin key.begin key.stop ≡ some bytes
    → (load_chunk key none origin accepted store).0 ≡ some bytes
unfolding load_chunk
load_missing key origin accepted store bytes e = rw (load_chunk, e) refl

ready_load :
    (m i : ℕ) (bytes : List ℕ) (p : Prepared) (accepted : Bool) (node : Node)
    → IsReady m bytes p
    → i * m < length bytes
    → finish_load i
        (load_chunk
          (chunk_key m p.size i)
          (Dict.get ChunkKey-discrete (chunk_key m p.size i) p.store)
          p.origin
          accepted
          p.store).0
        node
      ≡ chunk_loaded i (take m (drop (i * m) bytes)) node
unfolding load_chunk finish_load
ready_load m i bytes p accepted node h lt =
    elim (Option-cases (Dict.get ChunkKey-discrete (chunk_key m (length bytes) i) p.store)) [
      | inr (cached, q) ↦
          rw (h.size, q) (ap (λ b. chunk_loaded i b node) (h.truthful i cached lt q))
      | inl q ↦ elim (h.fetches i lt) [
        | inl (cached, r) ↦ absurd (cc (q, r))
        | inr r ↦
            rw
              (h.size, q, load_missing (chunk_key m (length bytes) i) p.origin accepted p.store _ r)
              refl
      ]
    ]

-- Once prepareModel has accepted a model, a load of any chunk below its end delivers the bytes of that
-- chunk to the model file, with the cache readable: from the cache, from a slice of the file, from a range
-- request, or, where the server has no ranges, from the preload, so that the call of fetchRange that
-- throws after a preload is never reached. CHUNK_MAX is positive, the server serves one file, and what
-- the cache already had of this model is right.
pub chunk_served :
    (m i : ℕ) (sha256 : List ℕ → List ℕ) (server : Server) (source : ModelSource) (bytes : List ℕ)
    (store : ChunkStore) (p : Prepared) (accepted : Bool) (node : Node)
    → 0 < m
    → Holds bytes server source
    → Truthful m bytes store
    → prepare_model m sha256 server source store ≡ prepared p
    → i * m < length bytes
    → finish_load i
        (load_chunk
          (chunk_key m p.size i)
          (Dict.get ChunkKey-discrete (chunk_key m p.size i) p.store)
          p.origin
          accepted
          p.store).0
        node
      ≡ chunk_loaded i (take m (drop (i * m) bytes)) node
unfolding prepare_model
chunk_served m i sha256 server (file f) bytes store p accepted node pos holds h e lt =
    ready_load m i bytes p accepted node
      (subst (λ b. IsReady m b p) holds
        (file-IsReady m sha256 f store p (subst (λ b. Truthful m b store) (sym holds) h) e))
      lt
chunk_served m i sha256 server (url address) bytes store p accepted node pos holds h e lt =
    ready_load m i bytes p accepted node
      (url-IsReady m sha256 server address bytes store p pos holds h e) lt
chunk_served m i sha256 server other bytes store p accepted node pos holds h e lt = absurd (cc e)
