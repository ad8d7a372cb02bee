-- ===== src/Runtime/Source/Tests.antt =====
-- Models prepared by runtime/llmlet-runtime.js on chunks of four bytes.
use dip_distributed_llm_runt.Prelude.{
  ℕ, ◌≡◌, refl, ap, true, false, List, [], ◌∷◌, none, some, take, drop, length, arith,
}
use dip_distributed_llm_runt.Prelude.Text.{codes}
use dip_distributed_llm_runt.Prelude.Decimal.{read_digits, decimal, decimal_from}
use dip_distributed_llm_runt.Prelude.Dict
use dip_distributed_llm_runt.Runtime.Model.{
  ChunkKey, ChunkKey-discrete, Node, chunk_key, chunk_loaded, chunk_failed,
  fetch_whole_model_to_cache,
}
use dip_distributed_llm_runt.Runtime.Model.Preload.{flat}
use dip_distributed_llm_runt.Runtime.Source.{
  Text, File, Server, Prepared, url, prepared, preloaded, prepare_model, prepare_url, prepare_sized,
  preload, positive_length, digest_string, url_identity, file_identity, load_chunk, finish_load,
  fetch_range, join_nul, CacheReader, cache_get,
}
use dip_distributed_llm_runt.Runtime.Source.Ready.{Serves, Truthful}
use dip_distributed_llm_runt.Runtime.Source.Loads.{chunk_served}
use dip_distributed_llm_runt.Runtime.Source.Identity.{IsBytes, cache_key_distinguishes}

abbrev model : List ℕ
model = 1 ∷ 2 ∷ 3 ∷ 4 ∷ 5 ∷ 6 ∷ []

abbrev parts : List (List ℕ)
parts = (1 ∷ 2 ∷ 3 ∷ []) ∷ (4 ∷ 5 ∷ 6 ∷ []) ∷ []

-- A server without ranges.
abbrev plain_server : Server
plain_server = record {
  head = record { ok = true; content_length = some (codes "6"); etag = none; last_modified = none };
  range = λ first last. record { status = 200; body = [] };
  whole = record { ok = true; body = some parts };
}

abbrev no_hash : List ℕ → List ℕ
no_hash text = []

abbrev address : Text
address = codes "a/m"

abbrev model_url_id : Text
model_url_id = digest_string no_hash (url_identity address (codes "6") plain_server.head)

abbrev plain_model : Prepared
plain_model = record {
  file_id = model_url_id;
  size = 6;
  origin = preloaded;
  store = fetch_whole_model_to_cache 4 parts [];
}

prepares : prepare_model 4 no_hash plain_server (url address) [] ≡ prepared plain_model
unfolding prepare_model prepare_url prepare_sized preload positive_length read_digits
prepares = refl

six : (size : ℕ) → read_digits 0 (codes "6") ≡ some size → size ≡ 6
unfolding read_digits
six size e = let same : some 6 ≡ some size = e in cc same

plain_Serves : Serves model plain_server
plain_Serves = record {
  ranged = λ first last e. let never : 200 ≡ 206 = e in absurd (omega (arith, never));
  steady = λ first last le lt e. let never : 200 ≡ 206 = e in absurd (omega (arith, never));
  whole = λ values e. let same : values ≡ parts = cc e in ap flat same;
  sized = λ raw size e r.
      let same : codes "6" ≡ raw = cc e in
      let known : read_digits 0 (codes "6") ≡ some size = rw same r in six size known;
}

empty_Truthful : Truthful 4 model []
unfolding Dict.get
empty_Truthful i cached lt e = absurd (cc e)

abbrev loading : Node
loading = record {
  size = 6;
  table = (1, record { res = []; done = false; length_ = 0; last_used = 9 }) ∷ [];
  remote_error = false;
}

chunk_served_example :
    finish_load 1
      (load_chunk
        (chunk_key 4 6 1)
        (Dict.get ChunkKey-discrete (chunk_key 4 6 1) plain_model.store)
        preloaded
        false
        plain_model.store).0
      loading
    ≡ chunk_loaded 1 (take 4 (drop 4 model)) loading
chunk_served_example =
    chunk_served 4 1 no_hash plain_server (url address) model [] plain_model false loading
      (omega arith) plain_Serves empty_Truthful prepares (omega arith)

-- After a preload, a read of the database that fails makes the load of the chunk fail.
unreadable :
    finish_load 1 (load_chunk (chunk_key 4 6 1) none preloaded false plain_model.store).0 loading
    ≡ record loading { remote_error = true }
unfolding finish_load load_chunk fetch_range chunk_failed
unreadable = refl

abbrev quiet : CacheReader
quiet = record { failure_logged = false; warnings = 0 }

-- Two failing reads: two misses, one warning.
warns_once :
    (cache_get (chunk_key 4 6 1) false [] (cache_get (chunk_key 4 6 0) false [] quiet).1).1
    ≡ record { failure_logged = true; warnings = 1 }
unfolding cache_get
warns_once = refl

abbrev a_file : File
a_file = record { name = codes "m"; last_modified = 7; bytes = model }

abbrev as_is : List ℕ → List ℕ
as_is text = text

file-IsBytes : IsBytes (as_is (file_identity a_file))
unfolding file_identity join_nul decimal decimal_from
file-IsBytes = (omega arith, (omega arith, (omega arith, (omega arith, (omega arith, tt)))))

abbrev first_chunk : ChunkKey
first_chunk = record { begin = 0; stop = 4 }

cache_key_distinguishes_example :
    (first_chunk.begin ≡ first_chunk.begin)
    × (first_chunk.stop ≡ first_chunk.stop)
    × (a_file.name ≡ a_file.name)
    × (length a_file.bytes ≡ length a_file.bytes)
    × (a_file.last_modified ≡ a_file.last_modified)
cache_key_distinguishes_example =
    cache_key_distinguishes as_is a_file a_file first_chunk first_chunk file-IsBytes file-IsBytes
      (λ e. e) ((λ e. cc e), tt) ((λ e. cc e), tt) refl
