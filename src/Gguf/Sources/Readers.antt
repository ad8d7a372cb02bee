-- ===== src/Gguf/Sources/Readers.antt =====
-- readGgufHeader of scripts/lib/gguf-header.mjs on the sources of scripts/probe-gguf-header.mjs.
use dip_distributed_llm_runt.Prelude.{
  ℕ, ◌≤◌, ◌<◌, ◌≡◌, refl, List, [], none, some, length, min, arith, inl,
}
use dip_distributed_llm_runt.Gguf.Header.{Header, read_gguf_header}
use dip_distributed_llm_runt.Gguf.Sources.{value, run, run_whole}
use dip_distributed_llm_runt.Gguf.Sources.Agreement.{run-run_whole, run_whole-run}
use dip_distributed_llm_runt.Gguf.Sources.File.{
  FileSource, file_source, max_read, Reads, IsOpen, file_source-IsSourceOf,
}
use dip_distributed_llm_runt.Gguf.Sources.Http.{
  HttpSource, Response, whole, http_source, http_ensure, new_source, fill, receive, pump, target_of,
}
use dip_distributed_llm_runt.Gguf.Sources.Http.Receiving.{Answers, IsFetching}
use dip_distributed_llm_runt.Gguf.Sources.Http.Serving.{http_source-IsSourceOf}

abbrev pub opened : ℕ → FileSource
opened size = record { size = size; bytes = []; requests = 0 }

opened-IsOpen : (file : List ℕ) → IsOpen file (opened (length file))
opened-IsOpen file = record { size = refl; start = refl }

new_source-IsFetching : (file : List ℕ) → IsFetching file new_source
new_source-IsFetching file = record { start = refl; sized = inl refl; ahead = tt }

-- A header read off a local file in growing pieces is the header of the whole file, given that
-- createReadStream gives the bytes of the file.
pub file_header_sound :
    (read : ℕ → ℕ → List (List ℕ)) (file : List ℕ) (a : Header × ℕ)
    → Reads read file
    → run (file_source read) (read_gguf_header 0) (opened (length file)) ≡ value a
    → run_whole file (length file) (read_gguf_header 0) ≡ value a
file_header_sound read file a reads e =
    run-run_whole (file_source read) (IsOpen file) file (min (length file) max_read)
      (file_source-IsSourceOf read file reads) (read_gguf_header 0) (opened (length file)) a
      (opened-IsOpen file) e

-- A header that ends within the first MAX_READ bytes of a local file is read, given that
-- createReadStream gives the bytes of the file.
pub file_header_complete :
    (read : ℕ → ℕ → List (List ℕ)) (file : List ℕ) (a : Header × ℕ)
    → Reads read file
    → run_whole file (min (length file) max_read) (read_gguf_header 0) ≡ value a
    → run (file_source read) (read_gguf_header 0) (opened (length file)) ≡ value a
file_header_complete read file a reads e =
    run_whole-run (file_source read) (IsOpen file) file (min (length file) max_read)
      (file_source-IsSourceOf read file reads) (read_gguf_header 0) (opened (length file)) a
      (opened-IsOpen file) e

-- A header read over HTTP is the header of the whole file, from a server that honours Range or sends
-- the whole file with its length.
pub http_header_sound :
    (fetch : ℕ → ℕ → Response) (file : List ℕ) (a : Header × ℕ)
    → ((from target : ℕ) → Answers file from target (fetch from target))
    → run (http_source fetch) (read_gguf_header 0) new_source ≡ value a
    → run_whole file (length file) (read_gguf_header 0) ≡ value a
http_header_sound fetch file a server e =
    run-run_whole (http_source fetch) (IsFetching file) file (min (length file) max_read)
      (http_source-IsSourceOf fetch file server) (read_gguf_header 0) new_source a
      (new_source-IsFetching file) e

-- A header that ends within the first MAX_READ bytes of the file is read over HTTP, from a server that
-- honours Range or sends the whole file with its length.
pub http_header_complete :
    (fetch : ℕ → ℕ → Response) (file : List ℕ) (a : Header × ℕ)
    → ((from target : ℕ) → Answers file from target (fetch from target))
    → run_whole file (min (length file) max_read) (read_gguf_header 0) ≡ value a
    → run (http_source fetch) (read_gguf_header 0) new_source ≡ value a
http_header_complete fetch file a server e =
    run_whole-run (http_source fetch) (IsFetching file) file (min (length file) max_read)
      (http_source-IsSourceOf fetch file server) (read_gguf_header 0) new_source a
      (new_source-IsFetching file) e

stuck-none :
    (fetch : ℕ → ℕ → Response) (later : ℕ) (s : HttpSource)
    → s.size ≡ some 0
    → length s.bytes < later
    → (http_ensure fetch later s).0 ≡ none
unfolding http_ensure
stuck-none fetch later s e more = ground (arith, e)

-- A missing header is null, and `Number(null)` is 0.
unnamed-size :
    (fetch : ℕ → ℕ → Response) (body : List (List ℕ)) (first : ℕ)
    → ((from target : ℕ) → fetch from target ≡ whole none body)
    → 0 < first
    → first ≤ max_read
    → (http_ensure fetch first new_source).1.size ≡ some 0
unfolding http_ensure fill receive pump
unnamed-size fetch body first server pos small =
    ground (arith, server 0 (target_of first new_source))

-- From a server that sends the whole file and does not name its length, nothing is read past what the
-- first call of ensure has buffered, however much of the file is still to come.
pub unnamed_length_fails :
    (fetch : ℕ → ℕ → Response) (body : List (List ℕ)) (first later : ℕ)
    → ((from target : ℕ) → fetch from target ≡ whole none body)
    → 0 < first
    → first ≤ max_read
    → length (http_ensure fetch first new_source).1.bytes < later
    → (http_ensure fetch later (http_ensure fetch first new_source).1).0 ≡ none
unnamed_length_fails fetch body first later server pos small more =
    stuck-none fetch later (http_ensure fetch first new_source).1
      (unnamed-size fetch body first server pos small) more
