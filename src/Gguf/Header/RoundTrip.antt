-- ===== src/Gguf/Header/RoundTrip.antt =====
-- readGgufHeader on a header that the format writes.
use dip_distributed_llm_runt.Prelude.{
  ◌≤◌, length-append, ℕ, ◌+◌, ◌^◌, ◌<◌, ◌≡◌, refl, ap, ◌∙◌, false, not, ◌&&◌, List, [], ◌∷◌, ◌++◌,
  append-nil, length, All, ltb, ◌==◌, arith, inl, inr,
}
use dip_distributed_llm_runt.Prelude.Dict
use dip_distributed_llm_runt.Gguf.Program.{Reader, pure, ◌>>=◌, tell}
use dip_distributed_llm_runt.Gguf.Sources.{value as some_value, run_whole}
use dip_distributed_llm_runt.Gguf.Header.{
  Metadata, Header, Text-discrete, u32, u64, string, value as read_value, metadata_loop, tensors,
  body, read_gguf_header, max_safe_integer, gguf_magic,
}
use dip_distributed_llm_runt.Gguf.Header.Parsing.{
  Parses, Parses-as, Parses-pure, Parses-bind, Parses-tell,
}
use dip_distributed_llm_runt.Gguf.Header.Fields.{Parses-u32, Parses-u64, Parses-string}
use dip_distributed_llm_runt.Gguf.Header.Descriptors.{Parses-tensors}
use dip_distributed_llm_runt.Gguf.Header.Values.{Parses-value, scalar_type}
use dip_distributed_llm_runt.Gguf.Header.Writing.{
  le, write_string, Field, text_field, number_field, texts_field, numbers_field, field_type,
  write_field, field_value, write_fields, collect, write_tensors, Document, write_header, IsShort,
  IsField, IsDocument,
}

field_type_fits : (f : Field) → IsField f → field_type f < 256 ^ 4
field_type_fits (text_field s) h = omega arith
field_type_fits (number_field type width bits) (e, h) =
    let (a, b, c) = scalar_type type width e in c
field_type_fits (texts_field ss) h = omega arith
field_type_fits (numbers_field type width ns) h = omega arith

Parses-fields :
    (offset : ℕ) (fs : List (List ℕ × Field)) (metadata : Metadata)
    → All (λ (kv : List ℕ × Field). IsShort kv.0 × IsField kv.1) fs
    → Parses offset (metadata_loop (length fs) metadata) (write_fields fs) (collect fs metadata)
unfolding metadata_loop
Parses-fields offset [] metadata h = Parses-pure offset metadata
Parses-fields offset ((key, f) ∷ fs) metadata ((short, h), hs) =
    let a = offset + length (write_string key) in
    let b = a + length (le 4 (field_type f)) in
    let c = b + length (write_field f) in
    Parses-bind offset string _ (write_string key) _ key _ (Parses-string offset key short) (
      Parses-bind a u32 _ (le 4 (field_type f)) _ (field_type f) _
        (Parses-u32 a (field_type f) (field_type_fits f h))
        (Parses-bind b (read_value (field_type f)) _ (write_field f) (write_fields fs)
          (field_value f) _ (Parses-value b f h)
          (Parses-fields c fs (Dict.set Text-discrete key (field_value f) metadata) hs)))

-- The ends of the two parts of a header.
abbrev pub fields_end : Document → ℕ
fields_end d = 24 + length (write_fields d.fields)

abbrev pub header_of : Document → Header
header_of d = record {
  version = d.version;
  tensor_count = length d.descriptors;
  kv_count = length d.fields;
  metadata = collect d.fields [];
  descriptors = d.descriptors;
  metadata_end = fields_end d;
  descriptors_end = fields_end d + length (write_tensors d.descriptors);
}

abbrev write_body : Document → List ℕ
write_body d =
    le 8 (length d.descriptors)
    ++ (le 8 (length d.fields) ++ (write_fields d.fields ++ write_tensors d.descriptors))

-- What `body` does after the fields, at the place where they end.
abbrev with_end : Document → ℕ → ℕ → Reader Header
with_end d metadata_end descriptors_end = pure (record {
  version = d.version;
  tensor_count = length d.descriptors;
  kv_count = length d.fields;
  metadata = collect d.fields [];
  descriptors = d.descriptors;
  metadata_end = metadata_end;
  descriptors_end = descriptors_end;
})

abbrev with_tensors : Document → ℕ → Reader Header
with_tensors d metadata_end = do
  descriptors ← tensors (length d.descriptors)
  descriptors_end ← tell
  pure (record {
    version = d.version;
    tensor_count = length d.descriptors;
    kv_count = length d.fields;
    metadata = collect d.fields [];
    descriptors = descriptors;
    metadata_end = metadata_end;
    descriptors_end = descriptors_end;
  })

Parses-with_tensors :
    (d : Document)
    → IsDocument d
    → Parses
        (fields_end d)
        (with_tensors d (fields_end d))
        (write_tensors d.descriptors)
        (header_of d)
Parses-with_tensors d h =
    let end = fields_end d + length (write_tensors d.descriptors) in
    Parses-as (fields_end d) (with_tensors d (fields_end d)) (write_tensors d.descriptors ++ []) _
      (header_of d) (append-nil (write_tensors d.descriptors))
      (Parses-bind (fields_end d) (tensors (length d.descriptors)) _ (write_tensors d.descriptors)
        [] d.descriptors (header_of d) (Parses-tensors (fields_end d) d.descriptors h.descriptors)
        (Parses-tell end (with_end d (fields_end d)) [] (header_of d)
          (Parses-pure end (header_of d))))

Parses-body : (d : Document) → IsDocument d → Parses 8 (body d.version) (write_body d) (header_of d)
unfolding body
Parses-body d h =
    let few_tensors : ltb max_safe_integer (length d.descriptors) ≡ false =
      (let short = h.tensors_short in ground arith) in
    let few_fields : ltb max_safe_integer (length d.fields) ≡ false =
      (let short = h.fields_short in ground arith) in
    Parses-bind 8 u64 _ (le 8 (length d.descriptors))
      (le 8 (length d.fields) ++ (write_fields d.fields ++ write_tensors d.descriptors))
      (length d.descriptors) (header_of d)
      (Parses-u64 8 (length d.descriptors) (let short = h.tensors_short in omega arith))
      (Parses-bind 16 u64 _ (le 8 (length d.fields))
        (write_fields d.fields ++ write_tensors d.descriptors) (length d.fields) (header_of d)
        (Parses-u64 16 (length d.fields) (let short = h.fields_short in omega arith))
        (rw (few_tensors, few_fields)
          (Parses-bind 24 (metadata_loop (length d.fields) []) _ (write_fields d.fields)
            (write_tensors d.descriptors) (collect d.fields []) (header_of d)
            (Parses-fields 24 d.fields [] h.fields)
            (Parses-tell (fields_end d) (λ place. with_tensors d place)
              (write_tensors d.descriptors) (header_of d) (Parses-with_tensors d h)))))

Parses-header :
    (d : Document) → IsDocument d → Parses 0 read_gguf_header (write_header d) (header_of d)
unfolding read_gguf_header
Parses-header d h =
    let small : d.version < 256 ^ 4 = elim h.version [
      | inl e ↦ omega (arith, e)
      | inr e ↦ omega (arith, e)
    ] in
    let known : not (d.version == 2) && not (d.version == 3) ≡ false = elim h.version [
      | inl e ↦ rw e refl
      | inr e ↦ rw e refl
    ] in
    Parses-bind 0 u32 _ (le 4 gguf_magic) (le 4 d.version ++ write_body d) gguf_magic (header_of d)
      (Parses-u32 0 gguf_magic (omega arith))
      (Parses-bind 4 u32 _ (le 4 d.version) (write_body d) d.version (header_of d)
        (Parses-u32 4 d.version small) (rw known (Parses-body d h)))

-- The header is read off a source that gives no more than the first `limit` bytes, if the header lies in them.
pub read_limited :
    (d : Document) (rest : List ℕ) (limit : ℕ)
    → IsDocument d
    → length (write_header d) ≤ limit
    → run_whole (write_header d ++ rest) limit (read_gguf_header 0)
      ≡ some_value (header_of d, length (write_header d))
read_limited d rest limit h inside =
    Parses-header d h (write_header d ++ rest) rest limit
      (record { left = refl; inside = omega arith }) (omega arith)
    ∙ ap (λ n. some_value (header_of d, n)) (let n = length (write_header d) in omega arith)

-- Where a file starts with a header of version 2 or 3 in the GGUF format, whatever follows it,
-- readGgufHeader returns what the header says: the counts, the metadata in order with the first items of
-- every array, the descriptors with their sizes, and the two places where metadata and descriptors end.
-- Texts and arrays are shorter than 2 ^ 53, numbers fit their width, and the tensors' types are known and
-- their rows whole blocks.
pub read_gguf_header-write_header :
    (d : Document) (rest : List ℕ)
    → IsDocument d
    → run_whole (write_header d ++ rest) (length (write_header d ++ rest)) (read_gguf_header 0)
      ≡ some_value (header_of d, length (write_header d))
read_gguf_header-write_header d rest h =
    read_limited d rest (length (write_header d ++ rest)) h
      (let whole = length-append (write_header d) rest in omega (arith, whole))
