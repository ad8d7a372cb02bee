-- ===== src/Gguf/Sources/Tests.antt =====
-- A small header read through the sources of scripts/probe-gguf-header.mjs.
use dip_distributed_llm_runt.Prelude.{
  ℕ, ◌-◌, ◌≡◌, refl, List, [], ◌∷◌, some, none, length, take, drop, min, ltb, if◌then◌else◌,
  append-nil, arith, if-cases, inr,
}
use dip_distributed_llm_runt.Gguf.Header.Writing.{Document, IsDocument, write_header}
use dip_distributed_llm_runt.Gguf.Header.RoundTrip.{header_of}
use dip_distributed_llm_runt.Gguf.Sources.Written.{http_reads_written}
use dip_distributed_llm_runt.Gguf.Program.{then_}
use dip_distributed_llm_runt.Gguf.Header.{
  Header, read_gguf_header, u32, u64, little_endian, body, metadata_loop, tensors,
}
use dip_distributed_llm_runt.Gguf.Sources.{value, run, run_whole}
use dip_distributed_llm_runt.Gguf.Sources.File.{file_source, max_read, Reads}
use dip_distributed_llm_runt.Gguf.Sources.Http.{
  Response, partial, refused, whole, http_source, http_ensure, new_source, fill, receive, pump,
  pump_loop,
}
use dip_distributed_llm_runt.Gguf.Sources.Http.Receiving.{Answers}
use dip_distributed_llm_runt.Gguf.Sources.Readers.{
  opened, file_header_complete, http_header_sound, http_header_complete, unnamed_length_fails,
}

-- The magic, version 3, no tensors and no metadata; a byte of padding.
abbrev file : List ℕ
file =
    0x47 ∷ 0x47 ∷ 0x55 ∷ 0x46 ∷ 3 ∷ 0 ∷ 0 ∷ 0 ∷ 0 ∷ 0 ∷ 0 ∷ 0 ∷ 0 ∷ 0 ∷ 0 ∷ 0 ∷ 0 ∷ 0 ∷ 0 ∷ 0 ∷ 0
    ∷ 0 ∷ 0 ∷ 0 ∷ 0 ∷ []

abbrev header : Header
header = record {
  version = 3;
  tensor_count = 0;
  kv_count = 0;
  metadata = [];
  descriptors = [];
  metadata_end = 24;
  descriptors_end = 24;
}

abbrev stream : ℕ → ℕ → List (List ℕ)
stream start stop = take (stop - start) (drop start file) ∷ []

stream-Reads : Reads stream file
stream-Reads start stop = append-nil (take (stop - start) (drop start file))

abbrev serve : ℕ → ℕ → Response
serve from target =
    if ltb from 25 then partial (some 25) (take (target - from) (drop from file)) else refused 416

serve-Answers : (from target : ℕ) → Answers file from target (serve from target)
serve-Answers from target =
    if-cases (Answers file from target) (ltb from 25) (λ inside. (ground arith, inr refl, refl))
      (λ past. ground arith)

parses : run_whole file (min (length file) max_read) (read_gguf_header 0) ≡ value (header, 24)
unfolding run_whole read_gguf_header then_ u32 u64 little_endian body metadata_loop tensors
parses = refl

file_read : run (file_source stream) (read_gguf_header 0) (opened 25) ≡ value (header, 24)
file_read = file_header_complete stream file (header, 24) stream-Reads parses

http_read : run (http_source serve) (read_gguf_header 0) new_source ≡ value (header, 24)
http_read = http_header_complete serve file (header, 24) serve-Answers parses

http_header_sound_example : run_whole file 25 (read_gguf_header 0) ≡ value (header, 24)
http_header_sound_example = http_header_sound serve file (header, 24) serve-Answers http_read

-- The whole file in two chunks, with no content-length.
abbrev unnamed : ℕ → ℕ → Response
unnamed from target = whole none ((0x47 ∷ 0x47 ∷ []) ∷ (0x55 ∷ 0x46 ∷ []) ∷ [])

four : length (http_ensure unnamed 1 new_source).1.bytes ≡ 4
unfolding http_ensure fill receive pump pump_loop
four = refl

unnamed_length_fails_example : (http_ensure unnamed 5 (http_ensure unnamed 1 new_source).1).0 ≡ none
unnamed_length_fails_example =
    unnamed_length_fails unnamed ((0x47 ∷ 0x47 ∷ []) ∷ (0x55 ∷ 0x46 ∷ []) ∷ []) 1 5
      (λ from target. refl) (omega arith) (omega arith) (omega (arith, four))

-- The same file, written from what it says.
abbrev bare : Document
bare = record { version = 3; fields = []; descriptors = [] }

bare-IsDocument : IsDocument bare
bare-IsDocument = record {
  version = inr refl;
  fields_short = omega arith;
  tensors_short = omega arith;
  fields = tt;
  descriptors = tt;
}

http_reads_written_example :
    run (http_source serve) (read_gguf_header 0) new_source
    ≡ value (header_of bare, length (write_header bare))
http_reads_written_example =
    http_reads_written serve bare (0 ∷ []) bare-IsDocument (omega arith) serve-Answers
