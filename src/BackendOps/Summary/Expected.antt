-- ===== src/BackendOps/Summary/Expected.antt =====
-- countExpectedCases of harness/backend-ops/summary.mjs on a file that export-graph-ops writes.
use dip_distributed_llm_runt.Prelude.{
  ◌+◌, ◌<◌, ◌≡◌, refl, ap, ◌∙◌, List, [], ◌∷◌, ◌++◌, none, length, arith, All,
}
use dip_distributed_llm_runt.BackendOps.Patterns.{Text, trim, trim_left, trim_right}
use dip_distributed_llm_runt.BackendOps.Summary.{
  newline, cut, split_lines, count_filled, count_expected_cases,
}
use dip_distributed_llm_runt.BackendOps.Summary.Cases.{lines, split_newline}

-- One test object per line, each ended by a newline.
abbrev pub serialize : List Text → Text
serialize [] = []
serialize (l ∷ rest) = l ++ newline ∷ serialize rest

-- A line of such a file: it has no newline in it, and is not blank.
abbrev pub IsObject : Text → Type 0
IsObject l = (cut l ≡ none) × (0 < length (trim l))

count_filled-cons :
    (l : Text) (more : List Text)
    → 0 < length (trim l)
    → count_filled (l ∷ more) ≡ count_filled more + 1
unfolding count_filled
count_filled-cons l more filled = ground (arith, filled)

nothing : count_filled (lines []) ≡ 0
unfolding count_filled split_lines trim_left trim_right
nothing = refl

count_filled-lines :
    (objects : List Text)
    → All IsObject objects
    → count_filled (lines (serialize objects)) ≡ length objects
count_filled-lines [] h = nothing
count_filled-lines (l ∷ rest) ((whole, filled), hs) =
    ap (λ (p : Text × List Text). count_filled (p.0 ∷ p.1))
      (split_newline l (serialize rest) newline whole refl)
    ∙ count_filled-cons l (lines (serialize rest)) filled
    ∙ omega (arith, count_filled-lines rest hs)

-- A file of test objects, one per line, none of them blank, declares as many cases as it has objects.
pub count_expected_cases_lem :
    (objects : List Text)
    → All IsObject objects
    → count_expected_cases (serialize objects) ≡ length objects
unfolding count_expected_cases
count_expected_cases_lem objects h = count_filled-lines objects h
