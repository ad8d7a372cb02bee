-- ===== src/LanProbe/Snapshots/Order.antt =====
-- The order in which the snapshots of a connection settle.
use dip_distributed_llm_runt.Prelude.{
  ℕ, ◌≤◌, ◌≡◌, refl, ap, sym, ◌∙◌, inl, List, [], ◌∷◌, some, subst, Member, All, All-Member, arith,
}
use dip_distributed_llm_runt.LanProbe.Candidates.{Text, option_map}
use dip_distributed_llm_runt.LanProbe.Selection.{Pair}
use dip_distributed_llm_runt.LanProbe.Selection.Ids.{UniquePairs, UniquePairs-same}
use dip_distributed_llm_runt.LanProbe.Snapshots.{Observed}
use dip_distributed_llm_runt.LanProbe.Snapshots.Merging.{Seen, Sighting, observe_all, watched}
use dip_distributed_llm_runt.LanProbe.Snapshots.Facts.{
  IsLatest, IsEarliest, IsSummary, facts, Within, ever_same,
}
use dip_distributed_llm_runt.LanProbe.Snapshots.Summary.{observe_all-IsSummary}
use dip_distributed_llm_runt.LanProbe.Snapshots.Members.{watched-Origin, watched-made}

-- One observation at most for each request.
abbrev pub OneEach : {A : Type 0} → List (ℕ × A) → Type 0
OneEach {A = A} xs = (n : ℕ) (p q : A) → Member (n, p) xs → Member (n, q) xs → p ≡ q

abbrev pub Included : {A : Type 0} → List A → List A → Type 0
Included {A = A} xs ys = (x : A) → Member x xs → Member x ys

module _ (xs ys : List Seen) (o o' : Observed) (f : Within xs ys) (g : Within ys xs) where
  -- Both descriptions name the same latest observation.
  latest_same :
      OneEach ys → (a : IsLatest xs o) (b : IsLatest ys o') → (a.seq ≡ b.seq) × (a.pair ≡ b.pair)
  latest_same one a b =
      let c = All-Member (λ (x : Seen). x.0 ≤ b.seq) (a.seq, a.pair) ys b.newest (f _ a.seen) in
      let d = All-Member (λ (x : Seen). x.0 ≤ a.seq) (b.seq, b.pair) xs a.newest (g _ b.seen) in
      let e : a.seq ≡ b.seq = omega arith in
      (e, one b.seq a.pair b.pair (subst (λ n. Member (n, a.pair) ys) e (f _ a.seen)) b.seen)

  earliest_same : IsEarliest xs o → IsEarliest ys o' → o.first_seen ≡ o'.first_seen
  earliest_same a b =
      let c =
        All-Member (λ (x : Seen). o'.first_seen ≤ x.0) (o.first_seen, a.pair) ys b.oldest
          (f _ a.seen) in
      let d =
        All-Member (λ (x : Seen). o.first_seen ≤ x.0) (o'.first_seen, b.pair) xs a.oldest
          (g _ b.seen) in
      omega arith

  summary_same : OneEach ys → IsSummary xs o → IsSummary ys o' → facts o ≡ facts o'
  unfolding facts
  summary_same one h h' =
      let a = h.latest in
      let b = h'.latest in
      let (e, p) = latest_same one a b in
      let first = earliest_same h.earliest h'.earliest in
      let last = a.last_seen ∙ ap some e ∙ sym b.last_seen in
      let state = a.last_state ∙ ap (λ (q : Pair). q.state) p ∙ sym b.last_state in
      let near = a.local ∙ ap (λ (q : Pair). q.local) p ∙ sym b.local in
      let far = a.remote ∙ ap (λ (q : Pair). q.remote) p ∙ sym b.remote in
      let nominated = h.ever.nominated ∙ ever_same _ xs ys f g ∙ sym h'.ever.nominated in
      let selected = h.ever.selected ∙ ever_same _ xs ys f g ∙ sym h'.ever.selected in
      λ i. record {
        first_seen = first i;
        last_seen = last i;
        seen_in = λ s. (h.ever.states s ∙ ever_same _ xs ys f g ∙ sym (h'.ever.states s)) i;
        last_state = state i;
        ever_nominated = nominated i;
        ever_selected = selected i;
        local = near i;
        remote = far i;
      }

observe_all_same :
    (xs ys : List Seen)
    → Within xs ys
    → Within ys xs
    → OneEach ys
    → option_map facts (observe_all xs) ≡ option_map facts (observe_all ys)
observe_all_same [] [] f g one = refl
observe_all_same [] (y ∷ ys) f g one = absurd (g y (inl refl))
observe_all_same (x ∷ xs) [] f g one = absurd (f x (inl refl))
observe_all_same (x ∷ xs) (y ∷ ys) f g one =
    let (o, d, h) = observe_all-IsSummary x xs in
    let (o', d', h') = observe_all-IsSummary y ys in
    rw (d, d') (ap some (summary_same (x ∷ xs) (y ∷ ys) o o' f g one h h'))

watched-OneEach :
    (k : Text) (hs : List Sighting)
    → OneEach hs
    → All (λ (h : Sighting). UniquePairs h.1) hs
    → OneEach (watched k hs)
watched-OneEach k hs one ids n p q m m' =
    let (a, b, c, d) = watched-Origin k hs (n, p) m in
    let (a', b', c', d') = watched-Origin k hs (n, q) m' in
    let e : a ≡ a' = one n a a' b b' in
    UniquePairs-same a p q (All-Member (λ (h : Sighting). UniquePairs h.1) (n, a) hs ids b) c
      (rw e c') (d ∙ sym d')

watched-Within :
    (k : Text) (hs gs : List Sighting) → Included hs gs → Within (watched k hs) (watched k gs)
watched-Within k hs gs f x m =
    let (a, b, c, d) = watched-Origin k hs x m in watched-made k gs x (a, f (x.0, a) b, c, d)

-- The facts about a pair depend on which digests there are for which requests, not on their order.
pub watched_same :
    (k : Text) (hs gs : List Sighting)
    → Included hs gs
    → Included gs hs
    → OneEach gs
    → All (λ (h : Sighting). UniquePairs h.1) gs
    → option_map facts (observe_all (watched k hs)) ≡ option_map facts (observe_all (watched k gs))
watched_same k hs gs f g one ids =
    observe_all_same _ _ (watched-Within k hs gs f) (watched-Within k gs hs g)
      (watched-OneEach k gs one ids)
