-- ===== src/Gguf/Probe.antt =====
-- main of scripts/probe-gguf-header.mjs: its arguments, the source it opens, and what it prints.
--
-- The lines of the report and the JSON text are left out, as are the fields of the architecture and the
-- tokenizer. Of `report` only that it reads the largest tensor matters here. The limit of --tensors is
-- decimal digits, nothing (0), or else taken for no number.
mod Tests
use dip_distributed_llm_runt.Prelude.{
  ℕ, zero, suc, ◌+◌, ◌-◌, Bool, true, false, not, ◌&&◌, ◌||◌, if◌then◌else◌, List, [], ◌∷◌, Option,
  none, some, leb, ltb, ◌==◌, take, length,
}
use dip_distributed_llm_runt.Prelude.Text.{codes}
use dip_distributed_llm_runt.Prelude.Decimal.{read_digits}
use dip_distributed_llm_runt.Prelude.Dict
use dip_distributed_llm_runt.Gguf.Header.{Tensor, Metadata, Value, single, array, Text-discrete}
use dip_distributed_llm_runt.Gguf.Header.Start.{Located}
use dip_distributed_llm_runt.Gguf.Summary.{Text, Summary, same_text, behind, starts, summarise}

-- `/^https?:\/\//i`
abbrev lower : ℕ → ℕ
lower c = if leb b'A' c && leb c b'Z' then c + 32 else c

unfoldable pub lower_text : Text → Text
lower_text [] = []
lower_text (c ∷ cs) = lower c ∷ lower_text cs

unfoldable pub is_url : Text → Bool
is_url target =
    starts (codes "http://") (lower_text target) || starts (codes "https://") (lower_text target)

unfoldable pub find_target : List Text → Option Text
find_target [] = none
find_target (a ∷ args) = if starts (codes "--") a then find_target args else some a

unfoldable pub includes_arg : Text → List Text → Bool
includes_arg t [] = false
includes_arg t (a ∷ args) = same_text a t || includes_arg t args

-- How many tensors --tensors asks for.
pub data Limit : Type 0 where
  bounded : ℕ → Limit
  unbounded not_a_number : Limit

-- `split("=")[1]`: what stands between the first `=` and the next.
unfoldable pub up_to_equals : Text → Text
up_to_equals [] = []
up_to_equals (c ∷ cs) = if c == b'=' then [] else c ∷ up_to_equals cs

unfoldable pub after_equals : Text → Option Text
after_equals [] = none
after_equals (c ∷ cs) = if c == b'=' then some (up_to_equals cs) else after_equals cs

unfoldable pub limit_of : Text → Limit
limit_of arg = elim (after_equals arg) [
  | none ↦ unbounded
  | some digits ↦ elim (read_digits 0 digits) [ none ↦ not_a_number | some n ↦ bounded n ]
]

unfoldable pub tensor_limit : List Text → Limit
tensor_limit [] = bounded 0
tensor_limit (a ∷ args) = if starts (codes "--tensors") a then limit_of a else tensor_limit args

-- `tensorLimit > 0`
unfoldable pub is_positive : Limit → Bool
is_positive (bounded n) = ltb 0 n
is_positive unbounded = true
is_positive not_a_number = false

-- `tensors.slice(0, tensorLimit)`
unfoldable pub listed : Limit → List Tensor → List Tensor
listed (bounded n) ts = take n ts
listed unbounded ts = ts
listed not_a_number ts = []

pub data Layout : Type 0 where
  fused split unlaid : Layout

unfoldable pub layout_of : Summary → Layout
layout_of s = if s.fused then fused else if s.split then split else unlaid

-- `Math.max(0, bytesFetched - dataStart)`, unknown where the start is.
unfoldable pub overshoot : ℕ → Option ℕ → Option ℕ
overshoot fetched none = none
overshoot fetched (some start) = some (fetched - start)

pub record ProbeJson : Type 0 where
  pub version : ℕ
  pub has_chat_template : Bool
  pub tensor_count : ℕ
  pub summary : Summary
  pub expert_tensor_count : ℕ
  pub expert_layout : Layout
  pub expert_bias_count : ℕ
  pub nextn_tensor_count : ℕ
  pub bytes_fetched : ℕ
  pub overshoot_into_data : Option ℕ
  pub requests : ℕ
  pub data_start : Option ℕ
  pub tensors : Option (List Tensor)
  pub arrays : Metadata

abbrev has_key : {V : Type 0} → Option V → Bool
has_key none = false
has_key (some v) = true

unfoldable pub array_fields : Metadata → Metadata
array_fields [] = []
array_fields ((key, single i) ∷ m) = array_fields m
array_fields ((key, array item_type length_ sample) ∷ m) =
    (key, array item_type length_ sample) ∷ array_fields m

-- Under --json the list is whole whatever the limit, as long as it is positive.
unfoldable pub json_of : Limit → Located → ℕ → ℕ → ProbeJson
json_of limit l fetched requests =
    let s = summarise l.header.descriptors in
    record {
      version = l.header.version;
      has_chat_template =
          has_key (Dict.get Text-discrete (codes "tokenizer.chat_template") l.header.metadata);
      tensor_count = l.header.tensor_count;
      summary = s;
      expert_tensor_count = length s.experts;
      expert_layout = layout_of s;
      expert_bias_count = length s.expert_bias;
      nextn_tensor_count = length s.nextn;
      bytes_fetched = fetched;
      overshoot_into_data = overshoot fetched l.start;
      requests = requests;
      data_start = l.start;
      tensors = if is_positive limit then some l.header.descriptors else none;
      arrays = array_fields l.header.metadata;
    }

pub data Printed : Type 0 where
  usage : Printed
  json : ProbeJson → Printed
  report : Summary → (tensor_list : List Tensor) → Printed
  rejected : Printed

-- `report` reads `s.largest.name`, which throws without a tensor.
unfoldable pub report_of : Limit → Located → Printed
report_of limit l =
    let s = summarise l.header.descriptors in
    elim s.biggest [
      | none ↦ rejected
      | some t ↦ report s (if is_positive limit then listed limit l.header.descriptors else [])
    ]

-- What the source and readGgufHeader come to is an argument: `none` where they throw.
unfoldable pub main : List Text → Option Located → ℕ → ℕ → Printed
main args found fetched requests = elim (find_target args) [
  | none ↦ usage
  | some [] ↦ usage
  | some (c ∷ cs) ↦ elim found [
    | none ↦ rejected
    | some l ↦
        if includes_arg (codes "--json") args
        then json (json_of (tensor_limit args) l fetched requests)
        else report_of (tensor_limit args) l
  ]
]
