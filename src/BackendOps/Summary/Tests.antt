-- ===== src/BackendOps/Summary/Tests.antt =====
-- Runs of the judge in harness/backend-ops/summary.mjs.
use dip_distributed_llm_runt.Prelude.{
  ℕ, ◌<◌, ◌≡◌, ◌↔◌, refl, true, false, List, [], ◌∷◌, ◌++◌, none, some, arith, inl, map,
}
use dip_distributed_llm_runt.Prelude.Text.{codes, is_space}
use dip_distributed_llm_runt.BackendOps.Patterns.{
  Text, ok, failed, not_supported, skipped, unknown, classify_outcome, match_case, match_op,
  match_params, match_section, number, digits, after, rest_of_line, no_line_end, trim_right,
  trim_left, says_not_supported, says_skipped, says_fail, after_folded,
}
use dip_distributed_llm_runt.Prelude.{All}
use dip_distributed_llm_runt.BackendOps.Summary.{cut}
use dip_distributed_llm_runt.BackendOps.Summary.Expected.{IsObject}
use dip_distributed_llm_runt.BackendOps.Summary.{
  Section, BackendOpsSummary, is_webgpu, create, newline, feed, flush, targets, pass, total,
  empty_counts, count_expected_cases, count_filled, split_lines,
}
use dip_distributed_llm_runt.BackendOps.Summary.Feeding.{feed_all, flat, feed_all-flat}
use dip_distributed_llm_runt.BackendOps.Summary.Verdicts.{AllOk, pass_iff, IsBlocked, blocked_stays}
use dip_distributed_llm_runt.BackendOps.Summary.Cases.{cases_of, lines, counted, counted-feed_all}

-- Two cases, cut in the middle of a line, the failing one with its diagnostic in front.
abbrev chunks : List Text
chunks =
    (codes "Backend 1/2: WebGPU" ++ newline ∷ codes "  MUL(n=1): O")
    ∷ (codes "K" ++ newline ∷ codes "[MUL] inf   MUL(n=2): FAIL")
    ∷ []

abbrev after_run : BackendOpsSummary
after_run = flush (feed_all chunks (create (some 2) is_webgpu))

outcomes :
    map classify_outcome (
      codes "OK"
      ∷ codes "FAIL"
      ∷ codes "not supported (would FAIL)"
      ∷ codes "SKIPPED"
      ∷ codes "OKAY"
      ∷ [])
    ≡ ok ∷ failed ∷ not_supported ∷ skipped ∷ unknown ∷ []
unfolding classify_outcome after trim_right trim_left is_space says_not_supported after_folded
    says_skipped says_fail
outcomes = refl

-- A diagnostic in front of a case does not hide it, and a report is no case.
reads_cases :
    map match_case
      (codes "inf M(n=2): FAIL" ∷ codes " 1/2 tests passed" ∷ codes "Skipping CPU" ∷ [])
    ≡ some (codes "FAIL") ∷ none ∷ none ∷ []
unfolding match_case match_op match_params after rest_of_line no_line_end is_space
reads_cases = refl

reads_section :
    match_section (codes "Backend 1/2: WebGPU")
    ≡ some (record { index = 1; of_ = 2; name = codes "WebGPU" })
unfolding match_section number digits after rest_of_line no_line_end
reads_section = refl

expects : count_expected_cases (codes "a" ++ newline ∷ newline ∷ codes " b" ++ newline ∷ []) ≡ 2
unfolding count_expected_cases count_filled trim_right trim_left split_lines is_space
expects = refl

feed_all-flat_example :
    feed_all chunks (create (some 2) is_webgpu) ≡ feed (flat chunks) (create (some 2) is_webgpu)
feed_all-flat_example = feed_all-flat (some 2) is_webgpu chunks

counted-feed_all_example :
    counted (flush (feed_all chunks (create (some 2) is_webgpu))) ≡ cases_of (lines (flat chunks))
counted-feed_all_example = counted-feed_all (some 2) is_webgpu chunks

pass_iff_example : (pass after_run ≡ true) ↔ (
    (n : ℕ) × (a : Section) × (after_run.expected ≡ some n)
    × (0 < n)
    × (targets after_run.target after_run.sections ≡ a ∷ [])
    × AllOk a.counts n
    × (total after_run.orphans ≡ 0))
pass_iff_example = pass_iff after_run

-- One case failed; nothing else has come yet.
abbrev failing : BackendOpsSummary
failing = record (create (some 2) is_webgpu) {
  sections =
      record {
        index = 1;
        of_ = 2;
        name = codes "WebGPU";
        counts = record empty_counts { fail_count = 1 };
      }
      ∷ [];
}

failing-IsBlocked : IsBlocked failing
unfolding targets create is_webgpu after_folded
failing-IsBlocked = inl (omega arith)

blocked_stays_example : pass (flush (feed_all chunks failing)) ≡ false
blocked_stays_example = blocked_stays chunks failing failing-IsBlocked

abbrev objects : List Text
objects = codes "{a}" ∷ codes " {b}" ∷ []

objects-IsObject : All IsObject objects
unfolding cut trim_left trim_right is_space
objects-IsObject = ((refl, omega arith), ((refl, omega arith), tt))
