-- ===== src/Gguf/Header.antt =====
-- readGgufHeader of scripts/lib/gguf-header.mjs, up to the end of the tensor descriptors.
--
-- A string is the bytes that TextDecoder is given. A signed number is its width and its
-- bits, a float its bits. A number of
-- 8 bytes that `Number` rounds is past Number.MAX_SAFE_INTEGER, and is refused or cannot be skipped.
pub mod Tables
pub mod Sizes
pub mod Parsing
pub mod Writing
pub mod Fields
pub mod Values
pub mod Descriptors
pub mod RoundTrip
pub mod Start
mod Tests
use dip_distributed_llm_runt.Prelude.{
  ℕ, zero, suc, ◌+◌, ◌-◌, ◌*◌, Bool, true, false, not, if◌then◌else◌, List, [], ◌∷◌, Option, none,
  some, ltb, leb, ◌==◌, length, min, ℕ_discrete, ◌||◌, ◌&&◌,
}
use dip_distributed_llm_runt.Prelude.Dict
use dip_distributed_llm_runt.Prelude.Dict.{Dict}
use dip_distributed_llm_runt.Gguf.Program.{
  Failure, Program, then_, Reader, pure, error, ◌>>=◌, tell, bytes,
}
use dip_distributed_llm_runt.Gguf.Header.Tables.{
  scalar_width, tensor_bytes, type_string, type_array,
}

-- A little-endian number.
unfoldable pub little_endian : List ℕ → ℕ
little_endian [] = 0
little_endian (b ∷ bs) = b + 256 * little_endian bs

abbrev pub gguf_magic : ℕ
gguf_magic = 0x46554747

abbrev pub array_sample : ℕ
array_sample = 4

abbrev pub max_safe_integer : ℕ
max_safe_integer = 9_007_199_254_740_991

pub data Scalar : Type 0 where
  unsigned : ℕ → Scalar
  signed : (width bits : ℕ) → Scalar
  floating : (bits : ℕ) → Scalar
  boolean : Bool → Scalar

pub data Item : Type 0 where
  text : List ℕ → Item
  number : Scalar → Item

pub data Value : Type 0 where
  single : Item → Value
  array : (item_type length_ : ℕ) → List Item → Value

unfoldable pub u32 : Reader ℕ
u32 = do b ← bytes 4; pure (little_endian b)

unfoldable pub u64 : Reader ℕ
u64 = do b ← bytes 8; pure (little_endian b)

-- The `switch` of `scalar`: which of the eleven forms the bits have.
unfoldable pub form : ℕ → ℕ → Scalar
form type bits =
    if type == 7
    then boolean (not (bits == 0))
    else if type == 1
    then signed 1 bits
    else if type == 3
    then signed 2 bits
    else if type == 5
    then signed 4 bits
    else if type == 11
    then signed 8 bits
    else if (type == 6) || (type == 12)
    then floating bits
    else unsigned bits

unfoldable pub scalar : ℕ → Reader Scalar
scalar type = elim (scalar_width type) [
  | none ↦ error (Failure.not_scalar type)
  | some width ↦ do b ← bytes width; pure (form type (little_endian b))
]

unfoldable pub string : Reader (List ℕ)
string = do
  count ← u64
  at ← tell
  if ltb max_safe_integer count then error (Failure.implausible_string (at - 8)) else bytes count

unfoldable pub skip : ℕ → Reader (List ℕ)
skip count = do _ ← bytes count; pure []

-- The loop over an array of strings: the first few are kept.
unfoldable pub strings : (left kept : ℕ) → Reader (List Item)
strings zero kept = pure []
strings (suc left) kept =
    let rest = strings left (kept - 1) in
    if ltb 0 kept
    then (do s ← string; items ← rest; pure (text s ∷ items))
    else (do count ← u64; _ ← skip count; rest)

unfoldable pub scalars : ℕ → ℕ → Reader (List Item)
scalars type zero = pure []
scalars type (suc left) =
    let rest = scalars type left in (do s ← scalar type; items ← rest; pure (number s ∷ items))

unfoldable pub array_items : ℕ → ℕ → Reader (List Item)
array_items item_type count =
    if item_type == type_string
    then strings count array_sample
    else if item_type == type_array
    then error Failure.nested_array
    else elim (scalar_width item_type) [
      | none ↦ error (Failure.unknown_item item_type)
      | some width ↦ do
        sample ← scalars item_type (min count array_sample)
        _ ← skip ((count - min count array_sample) * width)
        pure sample
    ]

unfoldable pub value : ℕ → Reader Value
value type =
    if type == type_string
    then (do s ← string; pure (single (text s)))
    else if not (type == type_array)
    then (do s ← scalar type; pure (single (number s)))
    else (do
      item_type ← u32
      count ← u64
      at ← tell
      if ltb max_safe_integer count
          then error (Failure.implausible_array (at - 8))
          else (do sample ← array_items item_type count; pure (array item_type count sample)))

pub Text-discrete : Discrete (List ℕ)
Text-discrete = hlevel ℕ_discrete

abbrev pub Metadata : Type 0
Metadata = Dict (List ℕ) Value

unfoldable pub metadata_loop : ℕ → Metadata → Reader Metadata
metadata_loop zero metadata = pure metadata
metadata_loop (suc left) metadata = do
  key ← string
  type ← u32
  v ← value type
  metadata_loop left (Dict.set Text-discrete key v metadata)

pub record Tensor : Type 0 where
  pub name : List ℕ
  pub dims : List ℕ
  pub type : ℕ
  pub offset : ℕ
  pub size : ℕ

unfoldable pub dimensions : ℕ → Reader (List ℕ)
dimensions zero = pure []
dimensions (suc left) = let rest = dimensions left in (do d ← u64; ds ← rest; pure (d ∷ ds))

unfoldable pub tensor : Reader Tensor
tensor = do
  name ← string
  n_dims ← u32
  if ltb 4 n_dims then error (Failure.too_many_dimensions n_dims) else (do
    dims ← dimensions n_dims
    type ← u32
    offset ← u64
    size ← (λ at. then_ (tensor_bytes type dims) (λ n. pure n at))
    pure (record { name = name; dims = dims; type = type; offset = offset; size = size }))

unfoldable pub tensors : ℕ → Reader (List Tensor)
tensors zero = pure []
tensors (suc left) = let rest = tensors left in (do t ← tensor; ts ← rest; pure (t ∷ ts))

pub record Header : Type 0 where
  pub version : ℕ
  pub tensor_count : ℕ
  pub kv_count : ℕ
  pub metadata : Metadata
  pub descriptors : List Tensor
  pub metadata_end : ℕ
  pub descriptors_end : ℕ

-- What follows the magic and the version.
unfoldable pub body : ℕ → Reader Header
body version = do
  tensor_count ← u64
  kv_count ← u64
  if ltb max_safe_integer tensor_count || ltb max_safe_integer kv_count
      then error Failure.implausible_counts
      else (do
        metadata ← metadata_loop kv_count []
        metadata_end ← tell
        descriptors ← tensors tensor_count
        descriptors_end ← tell
        pure (record {
          version = version;
          tensor_count = tensor_count;
          kv_count = kv_count;
          metadata = metadata;
          descriptors = descriptors;
          metadata_end = metadata_end;
          descriptors_end = descriptors_end;
        }))

unfoldable pub read_gguf_header : Reader Header
read_gguf_header = do
  magic ← u32
  if not (magic == gguf_magic) then error (Failure.bad_magic magic) else (do
    version ← u32
    if not (version == 2) && not (version == 3)
        then error (Failure.bad_version version)
        else body version)
