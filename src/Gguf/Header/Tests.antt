-- ===== src/Gguf/Header/Tests.antt =====
-- Sizes of tensors by scripts/lib/gguf-header.mjs.
use dip_distributed_llm_runt.Prelude.{
  ◌≤◌, ◌+◌, ◌%◌, ℕ_discrete, ℕ, ◌*◌, ◌≡◌, ◌<◌, refl, [], ◌∷◌, ◌++◌, some, length, arith, inr,
}
use dip_distributed_llm_runt.Gguf.Program.{Failure, ret, throw}
use dip_distributed_llm_runt.Gguf.Header.Tables.{
  Trait, ggml_types, find_trait, product, tensor_bytes, scalar_width,
}
use dip_distributed_llm_runt.Prelude.Text.{codes}
use dip_distributed_llm_runt.Gguf.Sources.{value, run_whole}
use dip_distributed_llm_runt.Prelude.Dict
use dip_distributed_llm_runt.Gguf.Header.{Text-discrete, Tensor, read_gguf_header}
use dip_distributed_llm_runt.Gguf.Header.Sizes.{tensor_bytes_lem}
use dip_distributed_llm_runt.Gguf.Header.Writing.{
  Document, IsDocument, text_field, numbers_field, texts_field, write_header,
}
use dip_distributed_llm_runt.Gguf.Header.Start.{locate, alignment_of, locate-start}
use dip_distributed_llm_runt.Gguf.Header.RoundTrip.{header_of, read_gguf_header-write_header}

-- A row that is not whole blocks is refused.
broken_row : tensor_bytes 12 (100 ∷ 2 ∷ []) ≡ throw Failure.bad_row
unfolding tensor_bytes find_trait ggml_types
broken_row = refl

abbrev q4_k : Trait
q4_k = record { type_id = 12; name = "Q4_K"; blck = 256; size = 144 }

finds : find_trait 12 ggml_types ≡ some q4_k
unfolding find_trait ggml_types
finds = refl

tensor_bytes_lem_example :
    (n : ℕ) × (tensor_bytes 12 (512 ∷ 3 ∷ []) ≡ ret n)
    × (n * 256 ≡ product (512 ∷ 3 ∷ []) 1 * 144)
    × (0 < 256)
tensor_bytes_lem_example = tensor_bytes_lem 12 (512 ∷ 3 ∷ []) q4_k finds refl

-- One tensor of two floats, with a text, a list of texts and a list of five 32-bit numbers beside it.
abbrev a_tensor : Tensor
a_tensor = record { name = codes "w"; dims = 2 ∷ []; type = 0; offset = 0; size = 8 }

abbrev a_document : Document
a_document = record {
  version = 3;
  fields =
      (codes "k", text_field (codes "v"))
      ∷ (codes "t", texts_field (codes "a" ∷ codes "b" ∷ []))
      ∷ (codes "n", numbers_field 4 4 (1 ∷ 2 ∷ 3 ∷ 4 ∷ 5 ∷ []))
      ∷ [];
  descriptors = a_tensor ∷ [];
}

a_tensor_size : tensor_bytes 0 (2 ∷ []) ≡ ret 8
unfolding tensor_bytes find_trait ggml_types
a_tensor_size = refl

a_document-IsDocument : IsDocument a_document
unfolding scalar_width
a_document-IsDocument = record {
  version = inr refl;
  fields_short = omega arith;
  tensors_short = omega arith;
  fields = (
    (omega arith, omega arith),
    (
      (omega arith, (omega arith, (omega arith, (omega arith, tt)))),
      (
        (
          omega arith,
          (
            refl,
            (
              omega arith,
              (omega arith, (omega arith, (omega arith, (omega arith, (omega arith, tt))))),
            ),
          ),
        ),
        tt,
      ),
    ),
  );
  descriptors =
      ((omega arith, omega arith, (omega arith, tt), omega arith, omega arith, a_tensor_size), tt);
}

reads_back :
    run_whole
      (write_header a_document ++ (9 ∷ []))
      (length (write_header a_document ++ (9 ∷ [])))
      (read_gguf_header 0)
    ≡ value (header_of a_document, length (write_header a_document))
reads_back = read_gguf_header-write_header a_document (9 ∷ []) a_document-IsDocument

-- The header of the document above, aligned to 32 bytes.
starts_at : alignment_of (header_of a_document).metadata ≡ some 32
unfolding alignment_of Dict.get Dict.set Text-discrete ℕ_discrete
starts_at = refl

locate-start_example :
    (n : ℕ) × ((locate (header_of a_document)).start ≡ some n)
    × ((header_of a_document).descriptors_end ≤ n)
    × (n < (header_of a_document).descriptors_end + 32)
    × (n % 32 ≡ 0)
locate-start_example = locate-start (header_of a_document) 32 starts_at (omega arith)
