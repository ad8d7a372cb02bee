-- ===== src/Runtime/Source.antt =====
-- runtime/llmlet-runtime.js: prepareModel, digestString, the fetchRange that it hands to addRemoteFile,
-- the load of one chunk in addRemoteFile, and ChunkCache.get.
--
-- SHA-256 is the parameter `sha256`; a text is its UTF-8 bytes. What the server answers is the record
-- `Server`. A Content-Length counts as a number when it is written in decimal digits, as HTTP has it.
-- Where the chunks of one model alone matter, a cached chunk's key is its range of bytes; `cache_key` is the
-- whole key.
pub mod Ready
pub mod Loads
pub mod Identity
mod Tests
use dip_distributed_llm_runt.Prelude.{
  ℕ, zero, suc, ◌+◌, ◌-◌, ◌/◌, ◌%◌, Bool, true, false, not, ◌&&◌, ◌||◌, if◌then◌else◌, List, [],
  ◌∷◌, ◌++◌, Option, none, some, ltb, leb, ◌==◌, take, drop, length,
}
use dip_distributed_llm_runt.Prelude.Text.{codes}
use dip_distributed_llm_runt.Prelude.Decimal.{read_digits, decimal}
use dip_distributed_llm_runt.Prelude.Dict
use dip_distributed_llm_runt.Runtime.Model.{
  ChunkKey, ChunkKey-discrete, ChunkStore, Node, put, fetch_whole_model_to_cache, chunk_loaded,
  chunk_failed,
}

abbrev pub Text : Type 0
Text = List ℕ

-- `b.toString(16).padStart(2, "0")`
abbrev pub hex_digit : ℕ → ℕ
hex_digit d = if ltb d 10 then b'0' + d else b'a' + (d - 10)

unfoldable pub hex : List ℕ → Text
hex [] = []
hex (b ∷ bs) = hex_digit (b / 16) ∷ hex_digit (b % 16) ∷ hex bs

unfoldable pub digest_string : (List ℕ → List ℕ) → Text → Text
digest_string sha256 value = hex (sha256 value)

-- `chunk:${fileId}:${begin}-${end}`, the key that the chunks of a model are cached under.
unfoldable pub cache_key : Text → ChunkKey → Text
cache_key file_id key =
    codes "chunk:" ++ (file_id ++ (b':' ∷ (decimal key.begin ++ (b'-' ∷ decimal key.stop))))

pub record File : Type 0 where
  pub name : Text
  pub last_modified : ℕ
  pub bytes : List ℕ

-- The answer to the HEAD request.
pub record Head : Type 0 where
  pub ok : Bool
  pub content_length : Option Text
  pub etag : Option Text
  pub last_modified : Option Text

pub record RangeResponse : Type 0 where
  pub status : ℕ
  pub body : List ℕ

-- The answer to the plain request: its body as the reader cuts it, when there is one.
pub record WholeResponse : Type 0 where
  pub ok : Bool
  pub body : Option (List (List ℕ))

-- `range first last` answers `Range: bytes=first-last`.
pub record Server : Type 0 where
  pub head : Head
  pub range : ℕ → ℕ → RangeResponse
  pub whole : WholeResponse

pub data ModelSource : Type 0 where
  file : File → ModelSource
  url : Text → ModelSource
  other : ModelSource

pub data Failure : Type 0 where
  not_a_source empty_file empty_url head_failed no_length bad_length download_failed : Failure

-- Where the chunks come from that the cache does not have.
pub data Origin : Type 0 where
  slices : List ℕ → Origin
  ranges : (ℕ → ℕ → RangeResponse) → Origin
  preloaded : Origin

-- What addRemoteFile is given, and the cache as prepareModel leaves it.
pub record Prepared : Type 0 where
  pub file_id : Text
  pub size : ℕ
  pub origin : Origin
  pub store : ChunkStore

pub data Outcome : Type 0 where
  prepared : Prepared → Outcome
  failed : Failure → Outcome

abbrev pub or_empty : Option Text → Text
or_empty none = []
or_empty (some t) = t

-- `[..].join("\0")`
unfoldable pub join_nul : List Text → Text
join_nul [] = []
join_nul (t ∷ []) = t
join_nul (t ∷ u ∷ us) = t ++ (0 ∷ join_nul (u ∷ us))

unfoldable pub file_identity : File → Text
file_identity f = join_nul (f.name ∷ decimal (length f.bytes) ∷ decimal f.last_modified ∷ [])

unfoldable pub url_identity : Text → Text → Head → Text
url_identity address raw_length head =
    join_nul (address ∷ raw_length ∷ or_empty head.etag ∷ or_empty head.last_modified ∷ [])

-- `Number(rawLength)`, refused unless it is finite and above zero.
unfoldable pub positive_length : Text → Option ℕ
positive_length raw = elim (read_digits 0 raw) [
  | none ↦ none
  | some size ↦ if ltb 0 size then some size else none
]

unfoldable pub prepare_file : (List ℕ → List ℕ) → File → ChunkStore → Outcome
prepare_file sha256 f store =
    if length f.bytes == 0
    then failed Failure.empty_file
    else prepared (record {
      file_id = digest_string sha256 (file_identity f);
      size = length f.bytes;
      origin = slices f.bytes;
      store = store;
    })

-- Without ranges the whole model is downloaded first. `m` is CHUNK_MAX.
unfoldable pub preload : ℕ → WholeResponse → ChunkStore → Option ChunkStore
preload m whole store = elim whole.body [
  | none ↦ none
  | some values ↦ if whole.ok then some (fetch_whole_model_to_cache m values store) else none
]

unfoldable pub prepare_sized : ℕ → Server → Text → ℕ → ChunkStore → Outcome
prepare_sized m server file_id size store =
    if (server.range 0 1).status == 206
    then prepared
        (record { file_id = file_id; size = size; origin = ranges server.range; store = store })
    else elim (preload m server.whole store) [
      | none ↦ failed Failure.download_failed
      | some filled ↦
          prepared (record { file_id = file_id; size = size; origin = preloaded; store = filled })
    ]

unfoldable pub prepare_url : ℕ → (List ℕ → List ℕ) → Server → Text → ChunkStore → Outcome
prepare_url m sha256 server [] store = failed Failure.empty_url
prepare_url m sha256 server (c ∷ cs) store =
    if server.head.ok
    then elim server.head.content_length [
      | none ↦ failed Failure.no_length
      | some raw ↦ elim (positive_length raw) [
        | none ↦ failed Failure.bad_length
        | some size ↦
            prepare_sized m server (digest_string sha256 (url_identity (c ∷ cs) raw server.head))
              size store
      ]
    ]
    else failed Failure.head_failed

unfoldable pub prepare_model : ℕ → (List ℕ → List ℕ) → Server → ModelSource → ChunkStore → Outcome
prepare_model m sha256 server (file f) store = prepare_file sha256 f store
prepare_model m sha256 server (url address) store = prepare_url m sha256 server address store
prepare_model m sha256 server other store = failed Failure.not_a_source

-- `fetchRange(begin, end)`; `none` when it throws or its promise rejects.
unfoldable pub fetch_range : Origin → ℕ → ℕ → Option (List ℕ)
fetch_range (slices bytes) begin stop = some (take (stop - begin) (drop begin bytes))
fetch_range (ranges server) begin stop =
    let response = server begin (stop - 1) in
    if response.status == 206 then some response.body else none
fetch_range preloaded begin stop = none

-- ChunkCache.get never rejects: a read of the database that fails is a miss, and the first is logged.
pub record CacheReader : Type 0 where
  pub failure_logged : Bool
  pub warnings : ℕ

unfoldable pub cache_get :
    ChunkKey → Bool → ChunkStore → CacheReader → Option (List ℕ) × CacheReader
cache_get key readable store r =
    if readable
    then (Dict.get ChunkKey-discrete key store, r)
    else if r.failure_logged
    then (none, r)
    else (none, record { failure_logged = true; warnings = suc r.warnings })

-- The load of a chunk: the cache, or else fetchRange, whose bytes are offered to the cache. `accepted`
-- says whether the cache takes them; the load does not wait for that.
unfoldable pub load_chunk :
    ChunkKey → Option (List ℕ) → Origin → Bool → ChunkStore → Option (List ℕ) × ChunkStore
load_chunk key cached origin accepted store = elim cached [
  | some data_ ↦ (some data_, store)
  | none ↦ elim (fetch_range origin key.begin key.stop) [
    | none ↦ (none, store)
    | some bytes ↦ (some bytes, if accepted then put key bytes store else store)
  ]
]

-- What the end of a load does to the model file.
unfoldable pub finish_load : ℕ → Option (List ℕ) → Node → Node
finish_load i none node = chunk_failed node
finish_load i (some bytes) node = chunk_loaded i bytes node
