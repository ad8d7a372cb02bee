-- ===== src/Runtime/ChunkCache/Tests.antt =====
-- Reads and writes of the chunk cache of runtime/llmlet-runtime.js.
use dip_distributed_llm_runt.Prelude.{◌≡◌, refl, true, false, [], ◌∷◌, some, ite}
use dip_distributed_llm_runt.Prelude.Dict
use dip_distributed_llm_runt.Runtime.Model.{ChunkKey, ChunkKey-discrete}
use dip_distributed_llm_runt.Runtime.Source.{CacheReader}
use dip_distributed_llm_runt.Runtime.ChunkCache.{
  Database, completed, aborted, open_chunk_cache, both_done, can_begin, put_chunk, get_chunk,
  get_chunk-put_chunk,
}

abbrev empty : Database
empty = record { has_store = true; chunks = []; closed = false }

abbrev quiet : CacheReader
quiet = record { failure_logged = false; warnings = 0 }

abbrev key : ChunkKey
key = record { begin = 0; stop = 4 }

first_open :
    open_chunk_cache true true (record empty { has_store = false; closed = true }) ≡ some empty
unfolding open_chunk_cache
first_open = refl

-- A transaction that aborts stores nothing, although its request succeeded.
aborts : put_chunk key (1 ∷ []) true aborted empty ≡ (false, empty)
unfolding put_chunk can_begin both_done
aborts = refl

stores : (put_chunk key (1 ∷ []) true completed empty).0 ≡ true
unfolding put_chunk can_begin both_done
stores = refl

gets_stored : get_chunk key true completed (put_chunk key (1 ∷ []) true completed empty).1 quiet ≡ (
  ite (ChunkKey-discrete key key) (some (1 ∷ [])) (Dict.get ChunkKey-discrete key empty.chunks),
  quiet,
)
gets_stored = get_chunk-put_chunk key key (1 ∷ []) true completed empty quiet stores
