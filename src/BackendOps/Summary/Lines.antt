-- ===== src/BackendOps/Summary/Lines.antt =====
-- The four things that `line` of harness/backend-ops/summary.mjs does.
use dip_distributed_llm_runt.Prelude.{
  ◌≡◌, true, false, ◌++◌, [], ◌∷◌, none, some, if-cases, Option-cases, inl, inr,
}
use dip_distributed_llm_runt.BackendOps.Patterns.{
  Text, Heading, match_section, is_self_reported, match_case, classify_outcome, strip_ansi,
  strip_return, trim,
}
use dip_distributed_llm_runt.BackendOps.Summary.{
  BackendOpsSummary, count_case, clean_line, line, open_section,
}

abbrev pub clean : Text → Text
clean raw = strip_return (strip_ansi 0 raw)

pub line-cases {ℓ} :
    (raw : Text) (s : BackendOpsSummary) (P : BackendOpsSummary → Type ℓ)
    → ((heading : Heading) → match_section (clean raw) ≡ some heading → P (open_section heading s))
    → (match_section (clean raw) ≡ none
        → is_self_reported (clean raw) ≡ true
        → P (record s { self_reported = s.self_reported ++ trim (clean raw) ∷ [] }))
    → (match_section (clean raw) ≡ none
        → is_self_reported (clean raw) ≡ false
        → (outcome : Text) → match_case (clean raw) ≡ some outcome
        → P (count_case (classify_outcome outcome) s))
    → (match_section (clean raw) ≡ none
        → is_self_reported (clean raw) ≡ false
        → match_case (clean raw) ≡ none
        → P s)
    → P (line raw s)
unfolding line clean_line
line-cases raw s P opens reports counts ignores = elim (Option-cases (match_section (clean raw))) [
  | inr (heading, e) ↦ rw (e, line, clean_line) (opens heading e)
  | inl e ↦
      rw (e, line, clean_line)
        (if-cases P (is_self_reported (clean raw)) (reports e) (λ f.
          elim (Option-cases (match_case (clean raw))) [
            | inr (outcome, g) ↦ rw g (counts e f outcome g)
            | inl g ↦ rw g (ignores e f g)
          ]))
]
