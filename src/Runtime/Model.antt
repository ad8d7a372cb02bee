-- ===== src/Runtime/Model.antt =====
-- runtime/llmlet-runtime.js: the model file that addRemoteFile mounts, and fetchWholeModelToCache.
--
-- `m` is CHUNK_MAX, whose value is `chunk_max`. A chunk's key in the cache is its range of bytes, since
-- the file id is the same throughout; `Date.now()` is an argument. The cache is taken to accept every
-- put, and a load that has begun ends by `chunk_loaded` or `chunk_failed`.
pub mod Filling
pub mod Preload
pub mod Answers
pub mod Reads
pub mod Arrivals
pub mod Serving
pub mod WaitingTable
mod Tests
use dip_distributed_llm_runt.Prelude.{
  ℕ, zero, suc, ◌+◌, ◌-◌, ◌*◌, ◌/◌, ◌%◌, Bool, true, false, if◌then◌else◌, ite, List, [], ◌∷◌, ◌++◌,
  Option, none, some, leb, ltb, ◌==◌, length, take, drop, min, ℕ_discrete, not,
}
use dip_distributed_llm_runt.Prelude.Dict
use dip_distributed_llm_runt.Prelude.Dict.{Dict}

abbrev pub chunk_max : ℕ
chunk_max = 100_000_000

-- `begin` and `end` of a range of bytes. The file id in the key is left out here, since a store is that of
-- one model; `cache_key` of Runtime/Source is the whole key.
pub record ChunkKey : Type 0 where
  pub begin : ℕ
  pub stop : ℕ

pub ChunkKey-discrete : Discrete ChunkKey
ChunkKey-discrete = hlevel ℕ_discrete

abbrev pub ChunkStore : Type 0
ChunkStore = Dict ChunkKey (List ℕ)

abbrev pub put : ChunkKey → List ℕ → ChunkStore → ChunkStore
put = Dict.set ChunkKey-discrete

-- The loop state of fetchWholeModelToCache. `chunk` is the filled part of the buffer.
pub record Download : Type 0 where
  pub chunk : List ℕ
  pub chunk_position : ℕ
  pub store : ChunkStore

-- `if (chunkLength === CHUNK_MAX)`: a full buffer goes to the cache.
unfoldable pub flush_full : ℕ → Download → Download
flush_full m d =
    if length d.chunk == m
    then record {
      chunk = [];
      chunk_position = d.chunk_position + m;
      store =
          put (record { begin = d.chunk_position; stop = d.chunk_position + m }) d.chunk d.store;
    }
    else d

-- The inner loop over what is left of one `value`.
unfoldable pub copy_value : ℕ → ℕ → List ℕ → Download → Download
copy_value m zero value d = d
copy_value m (suc fuel) [] d = d
copy_value m (suc fuel) (b ∷ value) d =
    let n = min (length (b ∷ value)) (m - length d.chunk) in
    copy_value m fuel (drop n (b ∷ value))
      (flush_full m (record d { chunk = d.chunk ++ take n (b ∷ value) }))

-- Each round copies a byte at least, so the value's length bounds the rounds.
unfoldable pub download : ℕ → List (List ℕ) → Download → Download
download m [] d = d
download m (value ∷ values) d = download m values (copy_value m (length value) value d)

-- After the last value, the rest of the buffer goes to the cache.
unfoldable pub fetch_whole_model_to_cache : ℕ → List (List ℕ) → ChunkStore → ChunkStore
fetch_whole_model_to_cache m values store =
    let d = download m values (record { chunk = []; chunk_position = 0; store = store }) in
    if ltb 0 (length d.chunk)
    then put (record { begin = d.chunk_position; stop = d.chunk_position + length d.chunk }) d.chunk
        d.store
    else d.store

pub record Entry : Type 0 where
  pub res : List ℕ
  pub done : Bool
  pub length_ : ℕ
  pub last_used : ℕ

-- `node.waitingTable`, in the ascending order in which JavaScript lists such keys.
abbrev pub Table : Type 0
Table = List (ℕ × Entry)

unfoldable pub find : ℕ → Table → Option Entry
find i [] = none
find i ((j, e) ∷ t) = if j == i then some e else find i t

unfoldable pub assign : ℕ → Entry → Table → Table
assign i e [] = (i, e) ∷ []
assign i e ((j, d) ∷ t) =
    if j == i then (j, e) ∷ t else if ltb i j then (i, e) ∷ (j, d) ∷ t else (j, d) ∷ assign i e t

unfoldable pub remove : ℕ → Table → Table
remove i [] = []
remove i ((j, d) ∷ t) = if j == i then remove i t else (j, d) ∷ remove i t

pub record Node : Type 0 where
  pub size : ℕ
  pub table : Table
  pub remote_error : Bool

abbrev pub max_entries : ℕ
max_entries = 5

-- The loop that looks for the finished entry used longest ago; `oldest` is its key and its time.
unfoldable pub oldest_done : Table → Option (ℕ × ℕ) → Option (ℕ × ℕ)
oldest_done [] oldest = oldest
oldest_done ((i, e) ∷ t) oldest = oldest_done t (
    if e.done
    then elim oldest [
      | none ↦ some (i, e.last_used)
      | some (j, used) ↦ if ltb e.last_used used then some (i, e.last_used) else some (j, used)
    ]
    else oldest)

unfoldable pub evict : Table → Table
evict t =
    if ltb max_entries (length t)
    then elim (oldest_done t none) [ none ↦ t | some (i, used) ↦ remove i t ]
    else t

-- The range that `read` wants for chunk `i`: its size, `min(CHUNK_MAX, size - begin)`, may be negative,
-- and `stop` is `begin` plus that size.
abbrev pub chunk_key : ℕ → ℕ → ℕ → ChunkKey
chunk_key m size i = record { begin = i * m; stop = min (i * m + m) size }

-- What `read` does: it copies bytes and returns their number, below zero where the position is past the
-- chunk's end; it asks to be called again, having begun to load a chunk or not; or it fails.
pub data Answer : Type 0 where
  copied : List ℕ → Answer
  past_end : (by : ℕ) → Answer
  retry : Answer
  retry_loading : ChunkKey → Answer
  io_error : Answer

abbrev pub pending_entry : ℕ → Entry
pending_entry now = record { res = []; done = false; length_ = 0; last_used = now }

unfoldable pub read_chunk : ℕ → ℕ → ℕ → ℕ → Entry → Node → Answer × Node
read_chunk i inner count now e node =
    if e.done
    then (
      (if leb inner e.length_
          then copied (take (min count (e.length_ - inner)) (drop inner e.res))
          else past_end (inner - e.length_)),
      record node { table = evict (assign i (record e { last_used = now }) node.table) },
    )
    else (retry, node)

unfoldable pub read : ℕ → ℕ → ℕ → ℕ → Node → Answer × Node
read m count position now node =
    if count == 0
    then (copied [], node)
    else if node.remote_error
    then (io_error, node)
    else elim (find (position / m) node.table) [
      | some e ↦ read_chunk (position / m) (position % m) count now e node
      | none ↦ (
        retry_loading (chunk_key m node.size (position / m)),
        record node { table = assign (position / m) (pending_entry now) node.table },
      )
    ]

-- The completion of a load. Without its entry it is an error.
unfoldable pub chunk_loaded : ℕ → List ℕ → Node → Node
chunk_loaded i bytes node = elim (find i node.table) [
  | none ↦ record node { remote_error = true }
  | some e ↦ record node {
    table = assign i (record e { res = bytes; done = true; length_ = length bytes }) node.table;
  }
]

unfoldable pub chunk_failed : Node → Node
chunk_failed node = record node { remote_error = true }

-- `offset` from where `whence` says, as a difference of two numbers; `none` is EINVAL.
unfoldable pub seek : ℕ → ℕ → ℕ → Option ℕ
seek base forward back = if leb back (base + forward) then some (base + forward - back) else none

-- The offset is `forward - back`.
unfoldable pub llseek : (whence forward back position size : ℕ) → Option ℕ
llseek whence forward back position size =
    if whence == 1
    then seek position forward back
    else if whence == 2
    then seek size forward back
    else seek 0 forward back
