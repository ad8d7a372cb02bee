-- ===== src/BackendOps/Summary/Cases.antt =====
-- The cases that harness/backend-ops/summary.mjs counts, and those in its input.
use dip_distributed_llm_runt.Prelude.{
  ℕ, ◌+◌, ◌≡◌, refl, sym, ap, ◌∙◌, Bool, true, if◌then◌else◌, List, [], ◌∷◌, ◌++◌, Option, none,
  some, ◌==◌, ltb, length, append_assoc, append-nil, take_all, arith, if-cases, Bool-cases, inl,
  inr,
}
use dip_distributed_llm_runt.BackendOps.Patterns.{
  Text, Status, match_section, is_self_reported, match_case, classify_outcome, after, strip_ansi,
  strip_return, trim_left, number,
}
use dip_distributed_llm_runt.BackendOps.Summary.{
  total, Section, BackendOpsSummary, create, count_case, line, newline, cut, flush, split_lines,
}
use dip_distributed_llm_runt.BackendOps.Summary.Lines.{clean, line-cases}
use dip_distributed_llm_runt.BackendOps.Summary.Feeding.{
  feed_all, flat, push_all, push-newline, push_other, cut_nil, cut-none, IsCut, feed_all-push_all,
}
use dip_distributed_llm_runt.BackendOps.Summary.Verdicts.{add_case-total}

-- The cases in a line: one if it is no heading and no report and has the form of a case.
unfoldable pub cases_in : Text → ℕ
cases_in raw = elim (match_section (clean raw)) [
  | some heading ↦ 0
  | none ↦
      if is_self_reported (clean raw)
      then 0
      else elim (match_case (clean raw)) [ none ↦ 0 | some outcome ↦ 1 ]
]

abbrev pub cases_of : List Text → ℕ
cases_of [] = 0
cases_of (l ∷ lines) = cases_in l + cases_of lines

abbrev pub total_of : List Section → ℕ
total_of [] = 0
total_of (a ∷ sections) = total a.counts + total_of sections

-- All that has been counted, whatever the outcome and wherever.
abbrev pub counted : BackendOpsSummary → ℕ
counted s = total s.orphans + total_of s.sections

counted-count_case :
    (status : Status) (s : BackendOpsSummary) → counted (count_case status s) ≡ counted s + 1
unfolding count_case
counted-count_case status s =
    elim s.sections
      as (λ sections.
        counted (count_case status (record s { sections = sections }))
        ≡ counted (record s { sections = sections }) + 1) [
          | [] ↦ omega (arith, add_case-total status s.orphans)
          | current ∷ past ↦ omega (arith, add_case-total status current.counts)
        ]

counted-line :
    (raw : Text) (s : BackendOpsSummary) → counted (line raw s) ≡ counted s + cases_in raw
unfolding cases_in
counted-line raw s =
    line-cases raw s (λ t. counted t ≡ counted s + cases_in raw) (λ heading e. ground (arith, e))
      (λ e f. ground (arith, e, f))
      (λ e f outcome g. ground (arith, e, f, g, counted-count_case (classify_outcome outcome) s))
      (λ e f g. ground (arith, e, f, g))

-- The lines of a text, the last with no newline.
abbrev pub lines : Text → List Text
lines text = let (a, more) = split_lines text in a ∷ more

pub split_newline :
    (a b : Text) (c : ℕ)
    → cut a ≡ none
    → (c == newline) ≡ true
    → split_lines (a ++ c ∷ b) ≡ (a, lines b)
unfolding cut split_lines
split_newline [] b c h e = ground arith
split_newline (d ∷ a) b c h e = ground (arith, split_newline a b c)

split_last : (a : Text) → cut a ≡ none → split_lines a ≡ (a, [])
unfolding cut split_lines
split_last [] h = refl
split_last (d ∷ a) h = ground (arith, split_last a)

cases_in_nil : cases_in [] ≡ 0
unfolding cases_in match_section after strip_ansi strip_return is_self_reported trim_left number
    match_case
cases_in_nil = refl

counted-flush :
    (s : BackendOpsSummary) → IsCut s → counted (flush s) ≡ counted s + cases_of (lines s.carry)
unfolding flush
counted-flush s h =
    let last : cases_of (lines s.carry) ≡ cases_in s.carry =
      ap (λ (p : Text × List Text). cases_of (p.0 ∷ p.1)) (split_last s.carry h) ∙ omega arith in
    if-cases (λ t. counted t ≡ counted s + cases_of (lines s.carry)) (ltb 0 (length s.carry))
      (λ _. omega (arith, counted-line s.carry s, last))
      (λ e.
        let nil : s.carry ≡ [] = sym (take_all 0 s.carry (ground arith)) in
        let none_ : cases_in s.carry ≡ 0 = ap cases_in nil ∙ cases_in_nil in
        omega (arith, last, none_))

counted-push_all :
    (cs : Text) (s : BackendOpsSummary)
    → IsCut s
    → counted (flush (push_all cs s)) ≡ counted s + cases_of (lines (s.carry ++ cs))
counted-push_all [] s h =
    counted-flush s h ∙ ap (λ a. counted s + cases_of (lines a)) (sym (append-nil s.carry))
counted-push_all (c ∷ cs) s h = elim (Bool-cases (c == newline)) [
  | inl e ↦
      let after : BackendOpsSummary = record (line s.carry s) { carry = [] } in
      let split : cases_of (lines (s.carry ++ c ∷ cs)) ≡ cases_in s.carry + cases_of (lines cs) =
        ap (λ (p : Text × List Text). cases_of (p.0 ∷ p.1)) (split_newline s.carry cs c h e) in
      ap (λ t. counted (flush (push_all cs t))) (push-newline c s e)
      ∙ counted-push_all cs after cut_nil
      ∙ omega (arith, counted-line s.carry s, split)
  | inr e ↦
      ap (λ t. counted (flush (push_all cs t))) (push_other c s e)
      ∙ counted-push_all cs (record s { carry = s.carry ++ c ∷ [] }) (cut-none s.carry c h e)
      ∙ ap (λ a. counted s + cases_of (lines a)) (append_assoc s.carry (c ∷ []) cs)
]

-- After any chunks and the final flush, the cases counted, over all sections, those before any
-- section and all outcomes, are as many as the lines of the whole input that have the form of a case:
-- none is skipped or counted twice.
pub counted-feed_all :
    (expected : Option ℕ) (target : Text → Bool) (chunks : List Text)
    → counted (flush (feed_all chunks (create expected target))) ≡ cases_of (lines (flat chunks))
unfolding create
counted-feed_all expected target chunks =
    ap (λ t. counted (flush t)) (feed_all-push_all chunks (create expected target) cut_nil)
    ∙ counted-push_all (flat chunks) (create expected target) cut_nil
    ∙ omega arith
