-- ===== src/LanProbe/Candidates.antt =====
-- ICE candidates as scripts/lan-probe.js reads them: the number and text helpers, describeSignaled,
-- sameBase and matchSignaled.
--
-- A text is the list of its UTF-16 code units. A field of a candidate line counts as a number when it
-- is written in decimal digits, which is how a candidate line writes its numbers; JavaScript's other
-- spellings of a number (a sign, a fraction, an exponent, hexadecimal) are not read. `toLowerCase`
-- folds the letters of ASCII.
pub mod Line
use dip_distributed_llm_runt.Prelude.{
  ℕ, ◌+◌, ◌*◌, ◌-◌, Bool, true, false, ◌&&◌, ◌||◌, if◌then◌else◌, List, [], ◌∷◌, Option, none, some,
  leb, ◌==◌, get_elem?,
}
use dip_distributed_llm_runt.Prelude.Text.{codes, is_space, is_digit}
use dip_distributed_llm_runt.Prelude.Decimal.{read_digits}

abbrev pub Text : Type 0
Text = List ℕ

-- What an attribute of a candidate or of a stats entry holds: undefined or null, a text, or a number.
pub data Value : Type 0 where
  missing : Value
  text : Text → Value
  number : ℕ → Value

unfoldable pub non_empty : Option Text → Option Text
non_empty none = none
non_empty (some []) = none
non_empty (some (c ∷ cs)) = some (c ∷ cs)

unfoldable pub num_or_null : Value → Option ℕ
num_or_null missing = none
num_or_null (text []) = none
num_or_null (text (c ∷ cs)) = read_digits 0 (c ∷ cs)
num_or_null (number n) = some n

abbrev pub fold : ℕ → ℕ
fold c = if leb b'A' c && leb c b'Z' then c + 32 else c

unfoldable pub lower : Text → Text
lower [] = []
lower (c ∷ cs) = fold c ∷ lower cs

unfoldable pub same_text : Text → Text → Bool
same_text [] [] = true
same_text [] (d ∷ ds) = false
same_text (c ∷ cs) [] = false
same_text (c ∷ cs) (d ∷ ds) = (c == d) && same_text cs ds

-- `/\.local$/i`
unfoldable pub ends_in_local : Text → Bool
ends_in_local [] = false
ends_in_local (c ∷ cs) = same_text (lower (c ∷ cs)) (codes ".local") || ends_in_local cs

unfoldable pub is_mdns_name : Option Text → Bool
is_mdns_name none = false
is_mdns_name (some address) = ends_in_local address

-- `line.split(/\s+/)`, where `gap` says that a run of white space is being passed over.
abbrev pub push_front : ℕ → List Text → List Text
push_front c [] = (c ∷ []) ∷ []
push_front c (w ∷ ws) = (c ∷ w) ∷ ws

unfoldable pub fields : Bool → Text → List Text
fields gap [] = [] ∷ []
fields gap (c ∷ cs) =
    let inside = fields true cs in
    let outside = fields false cs in
    if is_space c then if gap then inside else [] ∷ inside else push_front c outside

-- `word.replace(/^candidate:/, "")`, a prefix at a time.
unfoldable pub without : Text → Text → Option Text
without [] word = some word
without (p ∷ ps) [] = none
without (p ∷ ps) (c ∷ cs) = let rest = without ps cs in if p == c then rest else none

unfoldable pub bare_foundation : Text → Text
bare_foundation word = elim (without (codes "candidate:") word) [ none ↦ word | some rest ↦ rest ]

-- The attributes that an RTCIceCandidate carries, or the plain object that addIceCandidate was given.
pub record Candidate : Type 0 where
  pub line : Text
  pub type : Option Text
  pub address : Option Text
  pub port : Value
  pub protocol : Option Text
  pub foundation : Option Text
  pub priority : Value

pub record Signaled : Type 0 where
  pub at_ms : ℕ
  pub candidate : Text
  pub type : Option Text
  pub address : Option Text
  pub port : Option ℕ
  pub protocol : Option Text
  pub foundation : Option Text
  pub priority : Option ℕ
  pub is_mdns : Bool

-- `a || b` of two texts or nulls, and the same with a number that is kept when it is not null.
abbrev pub or_else {ℓ} : {A : Type ℓ} → Option A → Option A → Option A
or_else none second = second
or_else (some a) second = some a

abbrev pub option_map {ℓ} : {A B : Type ℓ} → (A → B) → Option A → Option B
option_map f none = none
option_map f (some a) = some (f a)

abbrev pub number_field : List Text → ℕ → Option ℕ
number_field p i = elim (get_elem? p i) [ none ↦ none | some word ↦ num_or_null (text word) ]

unfoldable pub foundation_field : List Text → Option Text
foundation_field p = elim (get_elem? p 0) [
  | none ↦ none
  | some word ↦ non_empty (some (bare_foundation word))
]

-- The eighth field, when there is one and the seventh is `typ`.
unfoldable pub type_field : List Text → Option Text
type_field p = elim (get_elem? p 7) [
  | none ↦ none
  | some word ↦ elim (get_elem? p 6) [
    | none ↦ none
    | some key ↦ if same_text key (codes "typ") then some word else none
  ]
]

unfoldable pub describe_signaled : ℕ → Candidate → Signaled
describe_signaled now c =
    let p = fields false c.line in
    let address = or_else (non_empty c.address) (get_elem? p 4) in
    record {
      at_ms = now;
      candidate = c.line;
      type = or_else (non_empty c.type) (type_field p);
      address = address;
      port = or_else (num_or_null c.port) (number_field p 5);
      protocol = or_else (non_empty c.protocol) (option_map lower (get_elem? p 2));
      foundation = or_else (non_empty c.foundation) (foundation_field p);
      priority = or_else (num_or_null c.priority) (number_field p 3);
      is_mdns = is_mdns_name address;
    }
