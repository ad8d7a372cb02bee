-- ===== src/BackendOps/Summary.antt =====
-- harness/backend-ops/summary.mjs: BackendOpsSummary and countExpectedCases.
--
-- `sections` is newest first, and `this.current` is its first element: a section becomes current as it
-- is pushed, and stays so until the next. The pattern `target` is a test on names.
pub mod Lines
pub mod Feeding
pub mod Verdicts
pub mod Cases
pub mod Expected
mod Tests
use dip_distributed_llm_runt.Prelude.{
  ℕ, zero, suc, ◌+◌, ◌-◌, ◌*◌, Bool, true, false, not, ◌&&◌, ◌||◌, if◌then◌else◌, List, [], ◌∷◌,
  ◌++◌, Option, none, some, ltb, leb, ◌==◌, length,
}
use dip_distributed_llm_runt.Prelude.Text.{codes}
use dip_distributed_llm_runt.BackendOps.Patterns.{
  Text, Status, ok, failed, not_supported, skipped, unknown, Heading, match_section,
  is_self_reported, match_case, strip_ansi, strip_return, trim, classify_outcome, after_folded,
  is_some,
}

pub record Counts : Type 0 where
  pub ok_count : ℕ
  pub fail_count : ℕ
  pub not_supported_count : ℕ
  pub skipped_count : ℕ
  pub unknown_count : ℕ

abbrev pub empty_counts : Counts
empty_counts = record {
  ok_count = 0;
  fail_count = 0;
  not_supported_count = 0;
  skipped_count = 0;
  unknown_count = 0;
}

abbrev pub total : Counts → ℕ
total c = c.ok_count + c.fail_count + c.not_supported_count + c.skipped_count + c.unknown_count

-- `counts[status] += 1`
unfoldable pub add_case : Status → Counts → Counts
add_case ok c = record c { ok_count = c.ok_count + 1 }
add_case failed c = record c { fail_count = c.fail_count + 1 }
add_case not_supported c = record c { not_supported_count = c.not_supported_count + 1 }
add_case skipped c = record c { skipped_count = c.skipped_count + 1 }
add_case unknown c = record c { unknown_count = c.unknown_count + 1 }

pub record Section : Type 0 where
  pub index : ℕ
  pub of_ : ℕ
  pub name : Text
  pub counts : Counts

pub record BackendOpsSummary : Type 0 where
  pub expected : Option ℕ
  pub target : Text → Bool
  pub sections : List Section
  pub orphans : Counts
  pub self_reported : List Text
  pub carry : Text

-- `/webgpu/i`, the default target.
unfoldable pub is_webgpu : Text → Bool
is_webgpu [] = false
is_webgpu (c ∷ cs) = is_some (after_folded (codes "webgpu") (c ∷ cs)) || is_webgpu cs

unfoldable pub create : Option ℕ → (Text → Bool) → BackendOpsSummary
create expected target = record {
  expected = expected;
  target = target;
  sections = [];
  orphans = empty_counts;
  self_reported = [];
  carry = [];
}

unfoldable pub count_case : Status → BackendOpsSummary → BackendOpsSummary
count_case status s = elim s.sections [
  | [] ↦ record s { orphans = add_case status s.orphans }
  | current ∷ past ↦ record s {
    sections = record current { counts = add_case status current.counts } ∷ past;
  }
]

abbrev pub open_section : Heading → BackendOpsSummary → BackendOpsSummary
open_section h s = record s {
  sections =
      record { index = h.index; of_ = h.of_; name = trim h.name; counts = empty_counts }
      ∷ s.sections;
}

-- `line` once the text is clean.
unfoldable pub clean_line : Text → BackendOpsSummary → BackendOpsSummary
clean_line text s = elim (match_section text) [
  | some heading ↦ open_section heading s
  | none ↦
      if is_self_reported text
      then record s { self_reported = s.self_reported ++ trim text ∷ [] }
      else elim (match_case text) [
        | some outcome ↦ count_case (classify_outcome outcome) s
        | none ↦ s
      ]
]

unfoldable pub line : Text → BackendOpsSummary → BackendOpsSummary
line raw s = clean_line (strip_return (strip_ansi 0 raw)) s

abbrev pub newline : ℕ
newline = 10

-- What stands before the first newline and what stands after it.
unfoldable pub cut : Text → Option (Text × Text)
cut [] = none
cut (c ∷ cs) =
    let later = cut cs in
    if c == newline
    then some ([], cs)
    else elim later [ none ↦ none | some (a, b) ↦ some (c ∷ a, b) ]

-- The loop of `feed`. Each round takes a newline at least off the carry.
unfoldable pub take_lines : ℕ → BackendOpsSummary → BackendOpsSummary
take_lines zero s = s
take_lines (suc fuel) s = elim (cut s.carry) [
  | none ↦ s
  | some (a, b) ↦ take_lines fuel (record (line a s) { carry = b })
]

unfoldable pub feed : Text → BackendOpsSummary → BackendOpsSummary
feed chunk s =
    let carry = s.carry ++ chunk in take_lines (length carry) (record s { carry = carry })

unfoldable pub flush : BackendOpsSummary → BackendOpsSummary
flush s = if ltb 0 (length s.carry) then record (line s.carry s) { carry = [] } else s

unfoldable pub targets : (Text → Bool) → List Section → List Section
targets target [] = []
targets target (s ∷ sections) =
    let others = targets target sections in if target s.name then s ∷ others else others

pub data Reason : Type 0 where
  no_target : Reason
  ambiguous_target : ℕ → Reason
  orphan_cases : ℕ → Reason
  expected_unknown : Reason
  expected_zero : Reason
  wrong_total : (observed expected : ℕ) → Reason
  wrong_ok : (ok_count expected : ℕ) → Reason
  bad_cases : Status → ℕ → Reason

abbrev pub reason_if : Bool → Reason → List Reason
reason_if test r = if test then r ∷ [] else []

unfoldable pub target_reasons : List Section → List Reason
target_reasons [] = no_target ∷ []
target_reasons (a ∷ []) = []
target_reasons (a ∷ b ∷ more) = ambiguous_target (length (a ∷ b ∷ more)) ∷ []

unfoldable pub expected_reasons : Option ℕ → List Reason
expected_reasons none = expected_unknown ∷ []
expected_reasons (some n) = reason_if (leb n 0) expected_zero

unfoldable pub count_reasons : Counts → ℕ → List Reason
count_reasons c n =
    reason_if (not (total c == n)) (wrong_total (total c) n)
    ++ reason_if (not (c.ok_count == n)) (wrong_ok c.ok_count n)
    ++ reason_if (ltb 0 c.fail_count) (bad_cases failed c.fail_count)
    ++ reason_if (ltb 0 c.not_supported_count) (bad_cases not_supported c.not_supported_count)
    ++ reason_if (ltb 0 c.skipped_count) (bad_cases skipped c.skipped_count)
    ++ reason_if (ltb 0 c.unknown_count) (bad_cases unknown c.unknown_count)

-- `if (section && this.expected !== null && this.expected > 0)`
unfoldable pub section_reasons : List Section → Option ℕ → List Reason
section_reasons (a ∷ []) (some n) = if ltb 0 n then count_reasons a.counts n else []
section_reasons seen expected = []

unfoldable pub reasons : BackendOpsSummary → List Reason
reasons s =
    let seen = targets s.target s.sections in
    target_reasons seen
    ++ reason_if (ltb 0 (total s.orphans)) (orphan_cases (total s.orphans))
    ++ expected_reasons s.expected
    ++ section_reasons seen s.expected

-- `verdict().pass`
unfoldable pub pass : BackendOpsSummary → Bool
pass s = length (reasons s) == 0

-- `split("\n")`, with what stands before the first newline in front.
unfoldable pub split_lines : Text → Text × List Text
split_lines [] = ([], [])
split_lines (c ∷ cs) =
    let (a, more) = split_lines cs in if c == newline then ([], a ∷ more) else (c ∷ a, more)

unfoldable pub count_filled : List Text → ℕ
count_filled [] = 0
count_filled (l ∷ lines) =
    let rest = count_filled lines in if ltb 0 (length (trim l)) then rest + 1 else rest

unfoldable pub count_expected_cases : Text → ℕ
count_expected_cases text = let (a, more) = split_lines text in count_filled (a ∷ more)
