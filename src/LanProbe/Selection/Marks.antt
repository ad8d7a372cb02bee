-- ===== src/LanProbe/Selection/Marks.antt =====
-- Which pair of a digest is the selected one.
use dip_distributed_llm_runt.Prelude.{
  ◌≡◌, refl, ap, sym, ◌∙◌, ◌⊎◌, inl, inr, Bool, true, false, List, [], ◌∷◌, Option, none, some,
  Member, All, All-map, All-Member, arith, subst, Bool-cases, Option-cases,
}
use dip_distributed_llm_runt.Prelude.Text.{codes}
use dip_distributed_llm_runt.LanProbe.Candidates.{Text, Signaled, same_text}
use dip_distributed_llm_runt.LanProbe.Matching.{Stat, same_text?}
use dip_distributed_llm_runt.LanProbe.Matching.Same.{same_text_eq, same_text_refl, same_text?_eq}
use dip_distributed_llm_runt.LanProbe.Selection.Named.{
  IsLastNamed, selected_id-last, IsLastNamed-selected_id,
}
use dip_distributed_llm_runt.LanProbe.Selection.{
  Pair, Digest, SelectedVia, is_selected, is_usable, find, mark, mark_first, pair_of, pairs_of,
  select, selected_id, digest_stats,
}

abbrev pub is_marked : Pair → Bool
is_marked p = p.selected

find-none : (p : Pair → Bool) (xs : List Pair) → find p xs ≡ none → All (λ q. p q ≡ false) xs
find-none p [] h = tt
find-none p (x ∷ xs) h = elim (Bool-cases (p x)) [
  | inl e ↦ absurd (cc (rw e at h))
  | inr e ↦ (e, find-none p xs (rw e at h))
]

find-some :
    (p : Pair → Bool) (xs : List Pair) (q : Pair) → find p xs ≡ some q → Member q xs × (p q ≡ true)
find-some p [] q h = absurd (cc h)
find-some p (x ∷ xs) q h = elim (Bool-cases (p x)) [
  | inl e ↦ let same : x ≡ q = cc (rw e at h) in (inl same, cc (e, same))
  | inr e ↦ let (a, b) = find-some p xs q (rw e at h) in (inr a, b)
]

-- The fallback marks the pair that it found, and no other.
mark_first-marks :
    (ps : List Pair) (q : Pair)
    → All (λ p. is_marked p ≡ false) ps
    → find is_usable ps ≡ some q
    → Member (mark q) (mark_first ps)
      × All (λ (p : Pair). is_marked p ≡ true → p.id ≡ q.id) (mark_first ps)
unfolding mark_first
mark_first-marks [] q h f = absurd (cc f)
mark_first-marks (p ∷ ps) q (h, hs) f = elim (Bool-cases (is_usable p)) [
  | inl e ↦
      let same : p ≡ q = cc (rw e at f) in
      rw e (
        inl (ap mark same),
        (λ d. ap (λ (r : Pair). r.id) same, All-map ps (λ r g d. absurd (cc (g, d))) hs),
      )
  | inr e ↦
      let (a, b) = mark_first-marks ps q hs (rw e at f) in
      rw e (inr a, (λ d. absurd (cc (h, d)), b))
]

-- Before the fallback every marked pair has the id that a transport chose.
pairs_of-marked :
    (ours theirs : List Signaled) (chosen : Option Text) (report ss : List Stat)
    → All
        (λ (p : Pair). is_marked p ≡ is_selected chosen p.id)
        (pairs_of ours theirs chosen report ss)
unfolding pairs_of pair_of
pairs_of-marked ours theirs chosen report [] = tt
pairs_of-marked ours theirs chosen report (s ∷ ss) =
    elim (Bool-cases (same_text s.type (codes "candidate-pair"))) [
      | inl e ↦ rw e (refl, pairs_of-marked ours theirs chosen report ss)
      | inr e ↦ rw e (pairs_of-marked ours theirs chosen report ss)
    ]

is_selected_eq :
    (chosen : Option Text) (id : Text) → is_selected chosen id ≡ true → chosen ≡ some id
is_selected_eq none id h = absurd (cc h)
is_selected_eq (some c) id h = ap some (sym (same_text_eq id c h))

-- What a digest says of its selected pair.
pub record IsSelection (report : List Stat) (d : Digest) (p : Pair) : Type 0 where
  pub listed : Member p d.pairs
  pub marked : p.selected ≡ true
  pub only : All (λ (q : Pair). q.selected ≡ true → q.id ≡ p.id) d.pairs
  pub via :
      ((d.selected_via ≡ some SelectedVia.transport) × IsLastNamed report p.id)
      ⊎ ((d.selected_via ≡ some SelectedVia.fallback)
          × (p.state ≡ some (codes "succeeded"))
          × (p.nominated ≡ true)
          × All (λ (q : Pair). IsLastNamed report q.id → ⊥) d.pairs)

abbrev by_transport : List Pair → Pair → Digest
by_transport ps p = record {
  pairs = ps;
  selected = some p;
  selected_via = some SelectedVia.transport;
}

abbrev by_fallback : List Pair → Pair → Digest
by_fallback ps p = record {
  pairs = mark_first ps;
  selected = some (mark p);
  selected_via = some SelectedVia.fallback;
}

-- The three ways that a digest's selection comes out.
select-cases :
    (ps : List Pair)
    → ((p : Pair) × (find is_marked ps ≡ some p) × (select ps ≡ by_transport ps p))
      ⊎ ((find is_marked ps ≡ none)
          × (((p : Pair) × (find is_usable ps ≡ some p) × (select ps ≡ by_fallback ps p))
              ⊎ ((find is_usable ps ≡ none) × ((select ps).selected ≡ none))))
unfolding select
select-cases ps = elim (Option-cases (find is_marked ps)) [
  | inr (p, e) ↦ inl (p, e, rw (select, e) refl)
  | inl e ↦ elim (Option-cases (find is_usable ps)) [
    | inr (p, f) ↦ inr (e, inl (p, f, rw (select, e, f) refl))
    | inl f ↦ inr (e, inr (f, rw (select, e, f) refl))
  ]
]

named_by_transport :
    (report : List Stat) (id : Text) → selected_id none report ≡ some id → IsLastNamed report id
named_by_transport report id e = elim (selected_id-last none report) [
  | inl (q, later) ↦ absurd (cc (e, q))
  | inr (k, q, last) ↦ let same : k ≡ id = cc (q, e) in subst (λ i. IsLastNamed report i) same last
]

-- A pair that is not marked is not the one that the last transport names.
unmarked_unnamed :
    (report : List Stat) (p : Pair)
    → is_marked p ≡ is_selected (selected_id none report) p.id
    → is_marked p ≡ false
    → IsLastNamed report p.id
    → ⊥
unmarked_unnamed report p marks unmarked last =
    let chosen = IsLastNamed-selected_id none report p.id last in
    let same : is_selected (selected_id none report) p.id ≡ true =
      rw chosen (same_text_refl p.id) in
    cc (marks, unmarked, same)

-- The mark of the fallback changes no id.
mark_first-ids :
    (P : Text → Type 0) (ps : List Pair)
    → All (λ (p : Pair). P p.id) ps
    → All (λ (p : Pair). P p.id) (mark_first ps)
unfolding mark_first
mark_first-ids P [] h = tt
mark_first-ids P (p ∷ ps) (h, hs) = elim (Bool-cases (is_usable p)) [
  | inl e ↦ rw e (h, hs)
  | inr e ↦ rw e (h, mark_first-ids P ps hs)
]

all_unnamed :
    (report : List Stat) (ps : List Pair)
    → All (λ (q : Pair). is_marked q ≡ is_selected (selected_id none report) q.id) ps
    → All (λ q. is_marked q ≡ false) ps
    → All (λ (q : Pair). IsLastNamed report q.id → ⊥) ps
all_unnamed report [] marks unmarked = tt
all_unnamed report (p ∷ ps) (m, ms) (u, us) =
    (unmarked_unnamed report p m u, all_unnamed report ps ms us)

usable-parts :
    (p : Pair) → is_usable p ≡ true → (p.state ≡ some (codes "succeeded")) × (p.nominated ≡ true)
usable-parts p h =
    let both : (same_text? p.state (some (codes "succeeded")) ≡ true) × (p.nominated ≡ true) =
      ground (arith, h) in
    (same_text?_eq p.state (some (codes "succeeded")) both.0, both.1)

select-IsSelection :
    (report : List Stat) (ps : List Pair) (p : Pair)
    → All (λ (q : Pair). is_marked q ≡ is_selected (selected_id none report) q.id) ps
    → (select ps).selected ≡ some p
    → IsSelection report (select ps) p
select-IsSelection report ps p marks h = elim (select-cases ps) [
  | inl (q, e, f) ↦
      let chosen = selected_id none report in
      let same : q ≡ p = cc (h, ap (λ (d : Digest). d.selected) f) in
      let (listed, marked) = find-some is_marked ps q e in
      let id_of : (r : Pair)
          → is_marked r ≡ is_selected chosen r.id
          → is_marked r ≡ true
          → chosen ≡ some r.id =
        λ r g m. is_selected_eq chosen r.id (sym g ∙ m) in
      let own = id_of q (All-Member _ q ps marks listed) marked in
      rw (f, ← same)
        (record {
          listed = listed;
          marked = marked;
          only = All-map ps (λ r g m. let other = id_of r g m in cc (other, own)) marks;
          via = inl (refl, named_by_transport report q.id own);
        })
  | inr (e, inl (q, f, g)) ↦
      let same : mark q ≡ p = cc (h, ap (λ (d : Digest). d.selected) g) in
      let unmarked = find-none is_marked ps e in
      let (listed, only) = mark_first-marks ps q unmarked f in
      let (_, usable) = find-some is_usable ps q f in
      let (state, nominated) = usable-parts q usable in
      let unnamed =
        mark_first-ids (λ id. IsLastNamed report id → ⊥) ps
          (all_unnamed report ps marks unmarked) in
      rw (g, ← same)
        (record {
          listed = listed;
          marked = refl;
          only = only;
          via = inr (refl, state, nominated, unnamed);
        })
  | inr (e, inr (f, g)) ↦ absurd (cc (g, h))
]

-- The selected pair of a digest is one of its pairs and marked, and no pair of another id is. It is the pair
-- that the report's last transport to name a pair names; or else it is nominated and succeeded, and that
-- transport, if there is one, names none of the pairs.
pub selected_pair :
    (ours theirs : List Signaled) (report : List Stat) (p : Pair)
    → (digest_stats ours theirs report).selected ≡ some p
    → IsSelection report (digest_stats ours theirs report) p
unfolding digest_stats
selected_pair ours theirs report p h =
    select-IsSelection report (pairs_of ours theirs (selected_id none report) report report) p
      (pairs_of-marked ours theirs (selected_id none report) report report) h
