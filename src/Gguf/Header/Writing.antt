-- ===== src/Gguf/Header/Writing.antt =====
-- GGUF headers as bytes: the file format that scripts/lib/gguf-header.mjs reads, written out.
--
-- A document holds the metadata fields and the tensor descriptors in the order of the file. A scalar is
-- its type and its bits.
use dip_distributed_llm_runt.Prelude.{
  ℕ, zero, suc, ◌/◌, ◌%◌, ◌^◌, ◌<◌, ◌≤◌, ◌≡◌, ◌⊎◌, List, [], ◌∷◌, ◌++◌, length, All, map, some,
  take, min,
}
use dip_distributed_llm_runt.Prelude.Dict
use dip_distributed_llm_runt.Gguf.Program.{ret}
use dip_distributed_llm_runt.Gguf.Header.{
  Value, Metadata, Tensor, Text-discrete, single, array, text, number, form, gguf_magic,
  max_safe_integer, array_sample,
}
use dip_distributed_llm_runt.Gguf.Header.Tables.{
  scalar_width, tensor_bytes, type_string, type_array,
}

-- A number in so many bytes, the least first.
abbrev pub le : ℕ → ℕ → List ℕ
le zero n = []
le (suc count) n = n % 256 ∷ le count (n / 256)

abbrev pub write_string : List ℕ → List ℕ
write_string s = le 8 (length s) ++ s

pub data Field : Type 0 where
  text_field : List ℕ → Field
  number_field : (type width bits : ℕ) → Field
  texts_field : List (List ℕ) → Field
  numbers_field : (type width : ℕ) → List ℕ → Field

abbrev pub write_strings : List (List ℕ) → List ℕ
write_strings [] = []
write_strings (s ∷ ss) = write_string s ++ write_strings ss

abbrev pub write_numbers : ℕ → List ℕ → List ℕ
write_numbers width [] = []
write_numbers width (n ∷ ns) = le width n ++ write_numbers width ns

abbrev pub field_type : Field → ℕ
field_type (text_field s) = type_string
field_type (number_field type width bits) = type
field_type (texts_field ss) = type_array
field_type (numbers_field type width ns) = type_array

abbrev pub write_field : Field → List ℕ
write_field (text_field s) = write_string s
write_field (number_field type width bits) = le width bits
write_field (texts_field ss) = le 4 type_string ++ (le 8 (length ss) ++ write_strings ss)
write_field (numbers_field type width ns) =
    le 4 type ++ (le 8 (length ns) ++ write_numbers width ns)

-- What the reader keeps of a field: of an array the first few items.
abbrev pub field_value : Field → Value
field_value (text_field s) = single (text s)
field_value (number_field type width bits) = single (number (form type bits))
field_value (texts_field ss) = array type_string (length ss) (map text (take array_sample ss))
field_value (numbers_field type width ns) =
    array type (length ns)
      (map (λ n. number (form type n)) (take (min (length ns) array_sample) ns))

abbrev pub write_fields : List (List ℕ × Field) → List ℕ
write_fields [] = []
write_fields ((key, f) ∷ fs) =
    write_string key ++ (le 4 (field_type f) ++ (write_field f ++ write_fields fs))

-- The map of the fields: a key that comes again keeps its place and takes the later value.
abbrev pub collect : List (List ℕ × Field) → Metadata → Metadata
collect [] metadata = metadata
collect ((key, f) ∷ fs) metadata = collect fs (Dict.set Text-discrete key (field_value f) metadata)

abbrev pub write_tensor : Tensor → List ℕ
write_tensor t =
    write_string t.name
    ++ (le 4 (length t.dims) ++ (write_numbers 8 t.dims ++ (le 4 t.type ++ le 8 t.offset)))

abbrev pub write_tensors : List Tensor → List ℕ
write_tensors [] = []
write_tensors (t ∷ ts) = write_tensor t ++ write_tensors ts

pub record Document : Type 0 where
  pub version : ℕ
  pub fields : List (List ℕ × Field)
  pub descriptors : List Tensor

-- The counts, then the fields, then the descriptors.
abbrev pub write_header : Document → List ℕ
write_header d =
    le 4 gguf_magic
    ++ (le 4 d.version
        ++ (le 8 (length d.descriptors)
            ++ (le 8 (length d.fields) ++ (write_fields d.fields ++ write_tensors d.descriptors))))

-- What a GGUF file may hold: texts and arrays shorter than 2 ^ 53, numbers that fit their width.
abbrev pub IsShort : {A : Type 0} → List A → Type 0
IsShort xs = length xs ≤ max_safe_integer

abbrev pub IsField : Field → Type 0
IsField (text_field s) = IsShort s
IsField (number_field type width bits) = (scalar_width type ≡ some width) × (bits < 256 ^ width)
IsField (texts_field ss) = IsShort ss × All IsShort ss
IsField (numbers_field type width ns) =
    (scalar_width type ≡ some width) × (IsShort ns × All (λ n. n < 256 ^ width) ns)

-- The descriptor's size is the one that its type and dimensions give.
abbrev pub IsTensor : Tensor → Type 0
IsTensor t =
    IsShort t.name
    × (length t.dims ≤ 4)
    × All (λ n. n < 256 ^ 8) t.dims
    × (t.type < 256 ^ 4)
    × (t.offset < 256 ^ 8)
    × (tensor_bytes t.type t.dims ≡ ret t.size)

pub record IsDocument (d : Document) : Type 0 where
  pub version : (d.version ≡ 2) ⊎ (d.version ≡ 3)
  pub fields_short : IsShort d.fields
  pub tensors_short : IsShort d.descriptors
  pub fields : All (λ (kv : List ℕ × Field). IsShort kv.0 × IsField kv.1) d.fields
  pub descriptors : All IsTensor d.descriptors
