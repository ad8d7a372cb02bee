-- ===== src/CrossCheck.antt =====
-- scripts/crosscheck-gguf-probe.mjs: compare, the difference between what the probe and gguf_dump.py print.
--
-- No tensor and no field bears the name of a property that every JavaScript object inherits. The labels
-- and values that a message quotes are left out.
pub mod Values
pub mod Agreement
pub mod Strict
pub mod Same
pub mod Fields
pub mod Run
pub mod Processes
pub mod Verdict
pub mod Passes
mod Tests
use dip_distributed_llm_runt.Prelude.{
  ℕ, zero, suc, ◌+◌, Bool, true, false, not, ◌&&◌, ◌||◌, if◌then◌else◌, List, [], ◌∷◌, ◌++◌, Option,
  none, some, ◌==◌, length, ℕ_discrete, map,
}
use dip_distributed_llm_runt.Prelude.Text.{codes}
use dip_distributed_llm_runt.Prelude.Dict
use dip_distributed_llm_runt.Prelude.Dict.{Dict}
use dip_distributed_llm_runt.CrossCheck.Values.{
  Text, Text-discrete, Doubles, Json, text, number, boolean, null, absent, compound, decided,
  same_text, is_string, is_boolean, string_of, strict_equal, as_number, close_to, same_number,
}

-- A tensor of the probe: its dimensions are 64-bit numbers, which JSON carries as texts.
pub record ProbeTensor : Type 0 where
  pub name : Text
  pub type_name : Text
  pub dims : List Text

pub record ArrayField (D : Type 0) : Type 0 where
  pub length_ : ℕ
  pub sample : List (Json D)

pub record Probe (D : Type 0) : Type 0 where
  pub architecture : Json D
  pub tokenizer_pre : Json D
  pub has_chat_template : Bool
  pub tensor_count : ℕ
  pub tensors : Option (List ProbeTensor)
  pub hparams : Dict Text (Json D)
  pub array_fields : Dict Text (ArrayField D)

pub record DumpTensor (D : Type 0) : Type 0 where
  pub type_name : Text
  pub shape : List D

pub data Content (D : Type 0) : Type 0 where
  plain : Json D → Content D
  items : (printed : Text) → List (Json D) → Content D

pub record Field (D : Type 0) : Type 0 where
  pub type_name : Text
  pub content : Content D

pub record Dump (D : Type 0) : Type 0 where
  pub metadata : Dict Text (Field D)
  pub tensors : Dict Text (DumpTensor D)

pub data Problem : Type 0 where
  architecture_differs pre_differs template_differs count_differs no_tensor_list : Problem
  tensor_missing tensor_type tensor_shape tensor_extra : Text → Problem
  hparam_missing hparam_differs : Text → Problem
  array_missing array_type array_no_value array_length : Text → Problem
  array_item : Text → ℕ → Problem

-- `if (!ok) note(problem)`
unfoldable pub note_unless : Bool → Problem → List Problem
note_unless ok problem = if ok then [] else problem ∷ []

-- The problems of every member, in order.
unfoldable pub each : {A : Type 0} → (A → List Problem) → List A → List Problem
each f [] = []
each f (x ∷ xs) = f x ++ each f xs

unfoldable pub content_json : {D : Type 0} → Content D → Json D
content_json (plain v) = v
content_json (items printed vs) = compound printed

-- `metadata[key]?.value`
unfoldable pub value_of : {D : Type 0} → Option (Field D) → Json D
value_of none = absent
value_of (some f) = content_json f.content

-- `value ?? null`
unfoldable pub or_null : {D : Type 0} → Json D → Json D
or_null absent = null
or_null v = v

abbrev pub is_some : {A : Type 0} → Option A → Bool
is_some none = false
is_some (some a) = true

abbrev pub architecture_key : Text
architecture_key = codes "general.architecture"

abbrev pub pre_key : Text
pre_key = codes "tokenizer.ggml.pre"

abbrev pub template_key : Text
template_key = codes "tokenizer.chat_template"

abbrev pub same_bool : Bool → Bool → Bool
same_bool a b = if a then b else not b

unfoldable pub identity : {D : Type 0} → Doubles D → Probe D → Dump D → List Problem
identity ops probe dump =
    note_unless
      (strict_equal ops probe.architecture
        (value_of (Dict.get Text-discrete architecture_key dump.metadata)))
      architecture_differs
    ++ (note_unless
          (strict_equal ops (or_null probe.tokenizer_pre)
            (or_null (value_of (Dict.get Text-discrete pre_key dump.metadata))))
          pre_differs
        ++ note_unless
            (same_bool probe.has_chat_template
              (is_some (Dict.get Text-discrete template_key dump.metadata)))
            template_differs)

-- `new Map(probe.tensors.map((t) => [t.name, t]))`
unfoldable pub add_tensors : List ProbeTensor → Dict Text ProbeTensor → Dict Text ProbeTensor
add_tensors [] m = m
add_tensors (t ∷ ts) m = add_tensors ts (Dict.set Text-discrete t.name t m)

unfoldable pub same_dims : {D : Type 0} → Doubles D → List Text → List D → Bool
same_dims ops [] [] = true
same_dims ops (d ∷ ds) (n ∷ ns) = ops.same (ops.number d) n && same_dims ops ds ns
same_dims ops ds ns = false

unfoldable pub check_tensor :
    {D : Type 0} → Doubles D → Dict Text ProbeTensor → Text × DumpTensor D → List Problem
check_tensor ops by_name (name, d) = elim (Dict.get Text-discrete name by_name) [
  | none ↦ tensor_missing name ∷ []
  | some p ↦
      note_unless (same_text p.type_name d.type_name) (tensor_type name)
      ++ note_unless (same_dims ops p.dims d.shape) (tensor_shape name)
]

unfoldable pub check_extra :
    {D : Type 0} → Dict Text (DumpTensor D) → Text × ProbeTensor → List Problem
check_extra tensors (name, t) =
    note_unless (is_some (Dict.get Text-discrete name tensors)) (tensor_extra name)

unfoldable pub tensor_problems : {D : Type 0} → Doubles D → Probe D → Dump D → List Problem
tensor_problems ops probe dump =
    note_unless (probe.tensor_count == length dump.tensors) count_differs ++ elim probe.tensors [
      | none ↦ no_tensor_list ∷ []
      | some ts ↦
          each (check_tensor ops (add_tensors ts [])) dump.tensors
          ++ each (check_extra dump.tensors) (add_tensors ts [])
    ]

-- `typeof value === "boolean" || typeof dv === "boolean" || typeof dv === "string" ? .. : ..`
unfoldable pub same_hparam : {D : Type 0} → Doubles D → Json D → Json D → Bool
same_hparam ops value dv =
    if is_boolean value || is_boolean dv || is_string dv
    then same_text (string_of ops value) (string_of ops dv)
    else same_number ops value dv

unfoldable pub check_hparam :
    {D : Type 0} → Doubles D → Dict Text (Field D) → Text × Json D → List Problem
check_hparam ops metadata (key, value) =
    if same_text key template_key then [] else elim (Dict.get Text-discrete key metadata) [
      | none ↦ hparam_missing key ∷ []
      | some f ↦ note_unless (same_hparam ops value (content_json f.content)) (hparam_differs key)
    ]

unfoldable pub same_item : {D : Type 0} → Doubles D → Json D → Json D → Bool
same_item ops sampled expected =
    if is_string sampled || is_string expected
    then same_text (string_of ops sampled) (string_of ops expected)
    else same_number ops sampled expected

-- The sample against the elements from index `i` on; past the end an element is `undefined`.
unfoldable pub check_items :
    {D : Type 0} → Doubles D → Text → ℕ → List (Json D) → List (Json D) → List Problem
check_items ops key i [] vs = []
check_items ops key i (s ∷ ss) [] =
    note_unless (same_item ops s absent) (array_item key i) ++ check_items ops key (i + 1) ss []
check_items ops key i (s ∷ ss) (v ∷ vs) =
    note_unless (same_item ops s v) (array_item key i) ++ check_items ops key (i + 1) ss vs

unfoldable pub check_array :
    {D : Type 0} → Doubles D → Dict Text (Field D) → Text × ArrayField D → List Problem
check_array ops metadata (key, arr) = elim (Dict.get Text-discrete key metadata) [
  | none ↦ array_missing key ∷ []
  | some f ↦
      if not (same_text f.type_name (codes "ARRAY")) then array_type key ∷ [] else elim f.content [
        | plain v ↦ array_no_value key ∷ []
        | items printed vs ↦
            note_unless (length vs == arr.length_) (array_length key)
            ++ check_items ops key 0 arr.sample vs
      ]
]

unfoldable pub problems : {D : Type 0} → Doubles D → Probe D → Dump D → List Problem
problems ops probe dump =
    identity ops probe dump
    ++ (tensor_problems ops probe dump
        ++ (each (check_hparam ops dump.metadata) probe.hparams
            ++ each (check_array ops dump.metadata) probe.array_fields))

-- `compare`: whether there is no problem.
unfoldable pub compare : {D : Type 0} → Doubles D → Probe D → Dump D → Bool
compare ops probe dump = length (problems ops probe dump) == 0
