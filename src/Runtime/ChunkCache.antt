-- ===== src/Runtime/ChunkCache.antt =====
-- openChunkCache of runtime/llmlet-runtime.js over a database that is outside code.
--
-- How a request and a transaction of IndexedDB end is an argument. A write takes effect where its request
-- succeeds and its transaction completes.
mod Tests
use dip_distributed_llm_runt.Prelude.{
  ℕ, ◌≡◌, refl, ◌∙◌, Bool, true, false, not, ◌&&◌, ◌||◌, if◌then◌else◌, List, [], Option, none,
  some, ite, arith,
}
use dip_distributed_llm_runt.Prelude.Dict
use dip_distributed_llm_runt.Runtime.Model.{ChunkKey, ChunkKey-discrete, ChunkStore, put}
use dip_distributed_llm_runt.Runtime.Source.{CacheReader, cache_get}

pub record Database : Type 0 where
  pub has_store : Bool
  pub chunks : ChunkStore
  pub closed : Bool

pub data End : Type 0 where
  completed failed aborted : End

-- `indexedDB.open`: whether an upgrade is needed, and whether the request succeeds.
unfoldable pub open_chunk_cache : (upgrade opens : Bool) → Database → Option Database
open_chunk_cache upgrade opens db =
    if opens then some (record db { has_store = db.has_store || upgrade; closed = false }) else none

-- `Promise.all([reqDone, txDone])`
unfoldable pub both_done : Bool → End → Bool
both_done request completed = request
both_done request failed = false
both_done request aborted = false

-- `db.transaction` throws where the database is closed or the store is not there.
unfoldable pub can_begin : Database → Bool
can_begin db = db.has_store && not db.closed

-- Whether the promise of `put` resolves, and the database after it.
unfoldable pub put_chunk : ChunkKey → List ℕ → Bool → End → Database → Bool × Database
put_chunk key chunk request end db =
    if can_begin db && both_done request end
    then (true, record db { chunks = put key chunk db.chunks })
    else (false, db)

-- What the promise of `get` resolves with: it never rejects.
unfoldable pub get_chunk :
    ChunkKey → Bool → End → Database → CacheReader → Option (List ℕ) × CacheReader
get_chunk key request end db r = cache_get key (can_begin db && both_done request end) db.chunks r

unfoldable pub close_cache : Database → Database
close_cache db = record db { closed = true }

-- A chunk that `put` has stored is what an untroubled `get` of its key gives, and the other keys keep what
-- they had. No warning is logged.
pub get_chunk-put_chunk :
    (key other : ChunkKey) (chunk : List ℕ) (request : Bool) (end : End) (db : Database)
    (r : CacheReader)
    → (put_chunk key chunk request end db).0 ≡ true
    → get_chunk other true completed (put_chunk key chunk request end db).1 r ≡ (
      ite (ChunkKey-discrete key other) (some chunk) (Dict.get ChunkKey-discrete other db.chunks),
      r,
    )
unfolding get_chunk put_chunk cache_get can_begin both_done
get_chunk-put_chunk key other chunk request end db r h =
    ground (arith, h, Dict.get-set ChunkKey-discrete other key chunk db.chunks)

-- After `close` every `put` rejects and every `get` is a miss, and no chunk is lost.
pub close_cache-get_chunk :
    (key : ChunkKey) (chunk : List ℕ) (request : Bool) (end : End) (db : Database) (r : CacheReader)
    → ((put_chunk key chunk request end (close_cache db)).0 ≡ false)
      × ((get_chunk key request end (close_cache db) r).0 ≡ none)
      × ((close_cache db).chunks ≡ db.chunks)
unfolding get_chunk put_chunk cache_get can_begin close_cache
close_cache-get_chunk key chunk request end db r = ground arith
