-- ===== src/Gguf/Sources/Written.antt =====
-- The header probe of scripts/probe-gguf-header.mjs on files in the GGUF format, over HTTP and off the disk.
use dip_distributed_llm_runt.Prelude.{ℕ, ◌≤◌, ◌≡◌, ◌++◌, List, length, length-append, min, arith}
use dip_distributed_llm_runt.Gguf.Sources.{value, run}
use dip_distributed_llm_runt.Gguf.Header.{read_gguf_header}
use dip_distributed_llm_runt.Gguf.Header.Writing.{Document, IsDocument, write_header}
use dip_distributed_llm_runt.Gguf.Header.RoundTrip.{header_of, read_limited}
use dip_distributed_llm_runt.Gguf.Sources.File.{max_read}
use dip_distributed_llm_runt.Gguf.Sources.Http.{Response, http_source, new_source}
use dip_distributed_llm_runt.Gguf.Sources.Http.Receiving.{Answers}
use dip_distributed_llm_runt.Gguf.Sources.Readers.{http_header_complete}

within :
    (d : Document) (rest : List ℕ)
    → length (write_header d) ≤ max_read
    → length (write_header d) ≤ min (length (write_header d ++ rest)) max_read
within d rest h = let whole = length-append (write_header d) rest in omega (arith, whole)

-- The probe reads the header of a remote GGUF file of version 2 or 3 and finds what the file says, the
-- counts, the metadata, the descriptors with their sizes and where both end: from a server that honours
-- Range or sends the whole file with its length, if the header lies in the first MAX_READ bytes. Texts and
-- arrays are shorter than 2 ^ 53, numbers fit their width, and the tensors' types are known and their rows
-- whole blocks.
pub http_reads_written :
    (fetch : ℕ → ℕ → Response) (d : Document) (rest : List ℕ)
    → IsDocument d
    → length (write_header d) ≤ max_read
    → ((from target : ℕ) → Answers (write_header d ++ rest) from target (fetch from target))
    → run (http_source fetch) (read_gguf_header 0) new_source
      ≡ value (header_of d, length (write_header d))
http_reads_written fetch d rest h short server =
    http_header_complete fetch (write_header d ++ rest) (header_of d, length (write_header d))
      server
      (read_limited d rest (min (length (write_header d ++ rest)) max_read) h (within d rest short))
