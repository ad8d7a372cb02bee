-- ===== src/BackendOps/Summary/Verdicts.antt =====
-- verdict of harness/backend-ops/summary.mjs: a pass, and what blocks it.
use dip_distributed_llm_runt.Prelude.{
  ℕ, zero, suc, ◌+◌, ◌≤◌, ◌<◌, ◌≡◌, ◌⊎◌, ◌↔◌, refl, ap, ◌∙◌, Bool, true, false, List, [], ◌∷◌, ◌++◌,
  Option, none, some, ltb, length, arith, if-cases, Option-cases, Bool-cases, inl, inr,
}
use dip_distributed_llm_runt.BackendOps.Patterns.{
  Text, Status, ok, failed, not_supported, skipped, unknown, classify_outcome,
}
use dip_distributed_llm_runt.BackendOps.Summary.{
  Counts, total, add_case, Section, BackendOpsSummary, count_case, line, cut, take_lines, feed,
  flush, targets, target_reasons, expected_reasons, count_reasons, section_reasons, reasons, pass,
  orphan_cases, reason_if, Reason,
}
use dip_distributed_llm_runt.BackendOps.Summary.Feeding.{feed_all}
use dip_distributed_llm_runt.BackendOps.Summary.Lines.{line-cases}

-- All of `n` cases ran and are OK.
abbrev pub AllOk : Counts → ℕ → Type 0
AllOk c n =
    (c.ok_count ≡ n)
    × (c.fail_count ≡ 0)
    × (c.not_supported_count ≡ 0)
    × (c.skipped_count ≡ 0)
    × (c.unknown_count ≡ 0)

abbrev Sound : List Section → ℕ → Option ℕ → Type 0
Sound seen orphans expected =
    (n : ℕ) × (a : Section) × (expected ≡ some n)
    × (0 < n)
    × (seen ≡ a ∷ [])
    × AllOk a.counts n
    × (orphans ≡ 0)

abbrev all_reasons : List Section → ℕ → Option ℕ → List Reason
all_reasons seen orphans expected =
    target_reasons seen
    ++ reason_if (ltb 0 orphans) (orphan_cases orphans)
    ++ expected_reasons expected
    ++ section_reasons seen expected

all_reasons-Sound :
    (seen : List Section) (orphans : ℕ) (expected : Option ℕ)
    → length (all_reasons seen orphans expected) ≡ 0
    → Sound seen orphans expected
unfolding target_reasons expected_reasons section_reasons count_reasons
all_reasons-Sound [] orphans expected h = absurd (ground arith)
all_reasons-Sound (a ∷ []) orphans none h = absurd (ground arith)
all_reasons-Sound (a ∷ []) orphans (some n) h =
    (n, a, refl, ground arith, refl, ground arith, ground arith)
all_reasons-Sound (a ∷ b ∷ more) orphans expected h = absurd (ground arith)

Sound-all_reasons :
    (seen : List Section) (orphans : ℕ) (expected : Option ℕ)
    → Sound seen orphans expected
    → length (all_reasons seen orphans expected) ≡ 0
unfolding target_reasons expected_reasons section_reasons count_reasons
Sound-all_reasons [] orphans expected (n, a, e, pos, one, h, none_) = absurd (cc)
Sound-all_reasons (a ∷ []) orphans none (n, b, e, pos, one, h, none_) = absurd (cc)
Sound-all_reasons (a ∷ []) orphans (some m) (n, b, e, pos, one, h, none_) = ground arith
Sound-all_reasons (a ∷ b ∷ more) orphans expected (n, c, e, pos, one, h, none_) = absurd (cc)

-- A pass says exactly this: the number of expected cases is known and is not zero, one section alone
-- matches the target, every expected case is counted there as OK and none as anything else, and no case
-- came before the first section.
pub pass_iff :
    (s : BackendOpsSummary)
    → (pass s ≡ true) ↔ (
        (n : ℕ) × (a : Section) × (s.expected ≡ some n)
        × (0 < n)
        × (targets s.target s.sections ≡ a ∷ [])
        × AllOk a.counts n
        × (total s.orphans ≡ 0))
unfolding pass reasons
pass_iff s = (
  λ h. all_reasons-Sound (targets s.target s.sections) (total s.orphans) s.expected (ground arith),
  λ h.
      let nil : length (reasons s) ≡ 0 =
        Sound-all_reasons (targets s.target s.sections) (total s.orphans) s.expected h in
      ground arith,
)

abbrev pub bad : Counts → ℕ
bad c = c.fail_count + c.not_supported_count + c.skipped_count + c.unknown_count

abbrev pub bad_sum : List Section → ℕ
bad_sum [] = 0
bad_sum (a ∷ sections) = bad a.counts + bad_sum sections

-- A case that is not OK stands in a section that matches the target, or a case came before the first
-- section, or two sections match.
abbrev pub IsBlocked : BackendOpsSummary → Type 0
IsBlocked s =
    (0 < bad_sum (targets s.target s.sections))
    ⊎ (0 < total s.orphans)
    ⊎ (1 < length (targets s.target s.sections))

IsBlocked-pass : (s : BackendOpsSummary) → IsBlocked s → pass s ≡ false
IsBlocked-pass s h = elim (Bool-cases (pass s)) [
  | inr e ↦ e
  | inl e ↦
      let (n, a, expected, pos, one, (oks, fails, refused, skips, strange), none_) =
        (pass_iff s).0 e in
      let sum : bad_sum (targets s.target s.sections) ≡ 0 = ap bad_sum one ∙ omega arith in
      let count : length (targets s.target s.sections) ≡ 1 = ap length one in
      absurd (elim h [
        | inl bad_case ↦ omega arith
        | inr (inl orphan) ↦ omega arith
        | inr (inr many) ↦ omega arith
      ])
]

-- What the verdict looks at, but for the number of expected cases.
record Tally : Type 0 where
  target : Text → Bool
  sections : List Section
  orphans : Counts

abbrev tally : BackendOpsSummary → Tally
tally s = record { target = s.target; sections = s.sections; orphans = s.orphans }

-- Nothing that blocks a pass gets less.
record Grows (s t : Tally) : Type 0 where
  target : t.target ≡ s.target
  bad : bad_sum (targets s.target s.sections) ≤ bad_sum (targets t.target t.sections)
  orphans : total s.orphans ≤ total t.orphans
  many : length (targets s.target s.sections) ≤ length (targets t.target t.sections)

Grows-trans : {s t u : Tally} → Grows s t → Grows t u → Grows s u
Grows-trans g h = record {
  target = h.target ∙ g.target;
  bad = omega (arith, g.bad, h.bad);
  orphans = omega (arith, g.orphans, h.orphans);
  many = omega (arith, g.many, h.many);
}

Grows-refl : (s : Tally) → Grows s s
Grows-refl s = record {
  target = refl;
  bad = omega arith;
  orphans = omega arith;
  many = omega arith;
}

pub add_case-total : (status : Status) (c : Counts) → total (add_case status c) ≡ total c + 1
unfolding add_case
add_case-total ok c = omega arith
add_case-total failed c = omega arith
add_case-total not_supported c = omega arith
add_case-total skipped c = omega arith
add_case-total unknown c = omega arith

add_case-bad : (status : Status) (c : Counts) → bad c ≤ bad (add_case status c)
unfolding add_case
add_case-bad ok c = omega arith
add_case-bad failed c = omega arith
add_case-bad not_supported c = omega arith
add_case-bad skipped c = omega arith
add_case-bad unknown c = omega arith

count_case-Grows :
    (status : Status) (s : BackendOpsSummary) → Grows (tally s) (tally (count_case status s))
unfolding count_case targets
count_case-Grows status s =
    elim s.sections
      as (λ sections.
        Grows (tally (record s { sections = sections }))
          (tally (count_case status (record s { sections = sections })))) [
            | [] ↦ record {
              target = refl;
              bad = omega arith;
              orphans = omega (arith, add_case-total status s.orphans);
              many = omega arith;
            }
            | current ∷ past ↦ record {
              target = refl;
              bad = ground (arith, add_case-bad status current.counts);
              orphans = omega arith;
              many = ground arith;
            }
          ]

line-Grows : (raw : Text) (s : BackendOpsSummary) → Grows (tally s) (tally (line raw s))
unfolding targets
line-Grows raw s =
    line-cases raw s (λ t. Grows (tally s) (tally t))
      (λ heading _. record {
        target = refl;
        bad = ground arith;
        orphans = omega arith;
        many = ground arith;
      })
      (λ _ _. Grows-refl (tally s)) (λ _ _ outcome _. count_case-Grows (classify_outcome outcome) s)
      (λ _ _ _. Grows-refl (tally s))

take_lines-Grows : (fuel : ℕ) (s : BackendOpsSummary) → Grows (tally s) (tally (take_lines fuel s))
unfolding take_lines
take_lines-Grows zero s = Grows-refl (tally s)
take_lines-Grows (suc fuel) s = elim (Option-cases (cut s.carry)) [
  | inl e ↦ rw (e, take_lines) (Grows-refl (tally s))
  | inr ((a, b), e) ↦
      rw (e, take_lines)
        (Grows-trans (line-Grows a s) (take_lines-Grows fuel (record (line a s) { carry = b })))
]

feed-Grows : (chunk : Text) (s : BackendOpsSummary) → Grows (tally s) (tally (feed chunk s))
unfolding feed
feed-Grows chunk s =
    take_lines-Grows (length (s.carry ++ chunk)) (record s { carry = s.carry ++ chunk })

feed_all-Grows :
    (chunks : List Text) (s : BackendOpsSummary) → Grows (tally s) (tally (feed_all chunks s))
feed_all-Grows [] s = Grows-refl (tally s)
feed_all-Grows (chunk ∷ chunks) s =
    Grows-trans (feed-Grows chunk s) (feed_all-Grows chunks (feed chunk s))

flush-Grows : (s : BackendOpsSummary) → Grows (tally s) (tally (flush s))
unfolding flush
flush-Grows s =
    if-cases (λ t. Grows (tally s) (tally t)) (ltb 0 (length s.carry)) (λ _. line-Grows s.carry s)
      (λ _. Grows-refl (tally s))

Grows-IsBlocked : (s t : BackendOpsSummary) → Grows (tally s) (tally t) → IsBlocked s → IsBlocked t
Grows-IsBlocked s t g (inl h) = inl (omega (arith, g.bad))
Grows-IsBlocked s t g (inr (inl h)) = inr (inl (omega (arith, g.orphans)))
Grows-IsBlocked s t g (inr (inr h)) = inr (inr (omega (arith, g.many)))

-- The judge fails closed: once a case of a target section was not OK, a case came before any section,
-- or a second section matched, no output that follows makes the run pass.
pub blocked_stays :
    (chunks : List Text) (s : BackendOpsSummary)
    → IsBlocked s
    → pass (flush (feed_all chunks s)) ≡ false
blocked_stays chunks s h = IsBlocked-pass (flush (feed_all chunks s)) (
    Grows-IsBlocked s (flush (feed_all chunks s))
      (Grows-trans (feed_all-Grows chunks s) (flush-Grows (feed_all chunks s))) h)
