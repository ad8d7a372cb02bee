-- ===== src/LanProbe/Selection/Ids.antt =====
-- The ids of the pairs of a digest are those of the entries of the report.
use dip_distributed_llm_runt.Prelude.{
  ◌≡◌, ap, sym, ◌∙◌, ◌≢◌, inl, inr, List, [], ◌∷◌, Option, Member, All, All-Member, Bool-cases,
  Option-cases,
}
use dip_distributed_llm_runt.Prelude.Text.{codes}
use dip_distributed_llm_runt.LanProbe.Candidates.{Text, Signaled, same_text}
use dip_distributed_llm_runt.LanProbe.Matching.{Stat}
use dip_distributed_llm_runt.LanProbe.Selection.{
  Pair, find, is_usable, pair_of, pairs_of, mark_first, select, digest_stats,
}

-- A report is a map from ids to entries: no id stands twice.
abbrev pub UniqueIds : List Stat → Type 0
UniqueIds [] = Unit
UniqueIds (s ∷ ss) = All (λ (t : Stat). t.id ≢ s.id) ss × UniqueIds ss

abbrev pub UniquePairs : List Pair → Type 0
UniquePairs [] = Unit
UniquePairs (p ∷ ps) = All (λ (q : Pair). q.id ≢ p.id) ps × UniquePairs ps

module _ (ours theirs : List Signaled) (chosen : Option Text) (report : List Stat) where
  pairs_of-apart :
      (id : Text) (ss : List Stat)
      → All (λ (t : Stat). t.id ≢ id) ss
      → All (λ (q : Pair). q.id ≢ id) (pairs_of ours theirs chosen report ss)
  unfolding pairs_of pair_of
  pairs_of-apart id [] h = tt
  pairs_of-apart id (s ∷ ss) (h, hs) =
      elim (Bool-cases (same_text s.type (codes "candidate-pair"))) [
        | inl e ↦ rw e (h, pairs_of-apart id ss hs)
        | inr e ↦ rw e (pairs_of-apart id ss hs)
      ]

  pairs_of-UniquePairs :
      (ss : List Stat) → UniqueIds ss → UniquePairs (pairs_of ours theirs chosen report ss)
  unfolding pairs_of pair_of
  pairs_of-UniquePairs [] h = tt
  pairs_of-UniquePairs (s ∷ ss) (h, hs) =
      elim (Bool-cases (same_text s.type (codes "candidate-pair"))) [
        | inl e ↦ rw e (pairs_of-apart s.id ss h, pairs_of-UniquePairs ss hs)
        | inr e ↦ rw e (pairs_of-UniquePairs ss hs)
      ]

mark_first-apart :
    (id : Text) (ps : List Pair)
    → All (λ (q : Pair). q.id ≢ id) ps
    → All (λ (q : Pair). q.id ≢ id) (mark_first ps)
unfolding mark_first
mark_first-apart id [] h = tt
mark_first-apart id (p ∷ ps) (h, hs) = elim (Bool-cases (is_usable p)) [
  | inl e ↦ rw e (h, hs)
  | inr e ↦ rw e (h, mark_first-apart id ps hs)
]

mark_first-UniquePairs : (ps : List Pair) → UniquePairs ps → UniquePairs (mark_first ps)
unfolding mark_first
mark_first-UniquePairs [] h = tt
mark_first-UniquePairs (p ∷ ps) (h, hs) = elim (Bool-cases (is_usable p)) [
  | inl e ↦ rw e (h, hs)
  | inr e ↦ rw e (mark_first-apart p.id ps h, mark_first-UniquePairs ps hs)
]

select-UniquePairs : (ps : List Pair) → UniquePairs ps → UniquePairs (select ps).pairs
unfolding select
select-UniquePairs ps h = elim (Option-cases (find (λ (p : Pair). p.selected) ps)) [
  | inr (p, e) ↦ rw (select, e) h
  | inl e ↦ elim (Option-cases (find is_usable ps)) [
    | inr (p, d) ↦ rw (select, e, d) (mark_first-UniquePairs ps h)
    | inl d ↦ rw (select, e, d) h
  ]
]

pub digest_stats-UniquePairs :
    (ours theirs : List Signaled) (report : List Stat)
    → UniqueIds report
    → UniquePairs (digest_stats ours theirs report).pairs
unfolding digest_stats
digest_stats-UniquePairs ours theirs report h =
    select-UniquePairs _ (pairs_of-UniquePairs ours theirs _ report report h)

-- Two pairs of one id are one.
pub UniquePairs-same :
    (ps : List Pair) (p q : Pair) → UniquePairs ps → Member p ps → Member q ps → p.id ≡ q.id → p ≡ q
UniquePairs-same [] p q u m n e = absurd m
UniquePairs-same (x ∷ xs) p q (u, us) (inl d) (inl f) e = sym d ∙ f
UniquePairs-same (x ∷ xs) p q (u, us) (inl d) (inr n) e =
    absurd
      (All-Member (λ (r : Pair). r.id ≢ x.id) q xs u n (sym e ∙ ap (λ (r : Pair). r.id) (sym d)))
UniquePairs-same (x ∷ xs) p q (u, us) (inr m) (inl f) e =
    absurd (All-Member (λ (r : Pair). r.id ≢ x.id) p xs u m (e ∙ ap (λ (r : Pair). r.id) (sym f)))
UniquePairs-same (x ∷ xs) p q (u, us) (inr m) (inr n) e = UniquePairs-same xs p q us m n e
