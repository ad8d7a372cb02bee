-- ===== src/LanProbe/Snapshots/Settling.antt =====
-- Settlements of the requests of one connection in two orders.
use dip_distributed_llm_runt.Prelude.{
  ℕ, ◌≡◌, ap, sym, ◌∙◌, inl, inr, List, [], ◌∷◌, subst, Member, All, map,
}
use dip_distributed_llm_runt.Prelude.Dict
use dip_distributed_llm_runt.LanProbe.Candidates.{Text, Signaled, option_map}
use dip_distributed_llm_runt.LanProbe.Selection.{Pair}
use dip_distributed_llm_runt.LanProbe.Selection.Ids.{
  UniqueIds, UniquePairs, digest_stats-UniquePairs,
}
use dip_distributed_llm_runt.LanProbe.Snapshots.{Id-discrete, Rec, Answer}
use dip_distributed_llm_runt.LanProbe.Snapshots.Merging.{
  Sighting, Settlement, sighting, pairs_in, settle_all, get-settle_all,
}
use dip_distributed_llm_runt.LanProbe.Snapshots.Facts.{facts}
use dip_distributed_llm_runt.LanProbe.Snapshots.Order.{OneEach, Included, watched_same}

-- What a settlement says of its request, without the time it came at.
abbrev pub answer_of : Settlement → ℕ × Answer
answer_of u = (u.seq, u.answer)

abbrev pub answers : List Settlement → List (ℕ × Answer)
answers = map answer_of

-- Every report has an id for each entry.
abbrev pub HasIds : ℕ × Answer → Type 0
HasIds (n, Answer.report stats) = UniqueIds stats
HasIds (n, Answer.failed error) = Unit

module _ (ours theirs : List Signaled) where
  abbrev shown : ℕ × Answer → Sighting
  shown (n, a) = (n, pairs_in ours theirs a)

  pub pairs_in-UniquePairs :
      (n : ℕ) (a : Answer) → HasIds (n, a) → UniquePairs (pairs_in ours theirs a)
  unfolding pairs_in
  pairs_in-UniquePairs n (Answer.report stats) h = digest_stats-UniquePairs ours theirs stats h
  pairs_in-UniquePairs n (Answer.failed error) h = tt

  sightings-UniquePairs :
      (us : List Settlement)
      → All HasIds (answers us)
      → All (λ (h : Sighting). UniquePairs h.1) (map (sighting ours theirs) us)
  sightings-UniquePairs [] h = tt
  sightings-UniquePairs (u ∷ us) (h, hs) =
      (pairs_in-UniquePairs u.seq u.answer h, sightings-UniquePairs us hs)

  sightings-origin :
      (us : List Settlement) (x : Sighting)
      → Member x (map (sighting ours theirs) us)
      → (a : Answer) × Member (x.0, a) (answers us) × (pairs_in ours theirs a ≡ x.1)
  sightings-origin [] x m = absurd m
  sightings-origin (u ∷ us) x (inl e) =
      (u.answer, inl (ap (λ (y : Sighting). (y.0, u.answer)) e), ap (λ (y : Sighting). y.1) e)
  sightings-origin (u ∷ us) x (inr m) = let (a, b, c) = sightings-origin us x m in (a, inr b, c)

  sightings-made :
      (us : List Settlement) (x : ℕ × Answer)
      → Member x (answers us)
      → Member (shown x) (map (sighting ours theirs) us)
  sightings-made [] x m = absurd m
  sightings-made (u ∷ us) x (inl e) = inl (ap shown e)
  sightings-made (u ∷ us) x (inr m) = inr (sightings-made us x m)

  sightings-OneEach :
      (us : List Settlement) → OneEach (answers us) → OneEach (map (sighting ours theirs) us)
  sightings-OneEach us one n p q m m' =
      let (a, b, c) = sightings-origin us (n, p) m in
      let (a', b', c') = sightings-origin us (n, q) m' in
      sym c ∙ ap (pairs_in ours theirs) (one n a a' b b') ∙ c'

  sightings-Included :
      (us vs : List Settlement)
      → Included (answers us) (answers vs)
      → Included (map (sighting ours theirs) us) (map (sighting ours theirs) vs)
  sightings-Included us vs f x m =
      let (a, b, c) = sightings-origin us x m in
      subst (λ (ps : List Pair). Member (x.0, ps) (map (sighting ours theirs) vs)) c
        (sightings-made vs (x.0, a) (f (x.0, a) b))

-- On a connection with no pair observed yet, and while no further candidate is signalled, two orders in which
-- the same requests settle with the same answers, whatever the times that the settlements carry, leave the
-- same facts about every pair: first and last request that saw it, the set of states, what it looked like
-- last, whether it was ever nominated and ever selected. Each request has one answer and a report has unique
-- ids.
pub pairs_any_order :
    (us vs : List Settlement) (r : Rec) (k : Text)
    → r.ever_observed ≡ []
    → Included (answers us) (answers vs)
    → Included (answers vs) (answers us)
    → OneEach (answers vs)
    → All HasIds (answers vs)
    → option_map facts (Dict.get Id-discrete k (settle_all us r).ever_observed)
      ≡ option_map facts (Dict.get Id-discrete k (settle_all vs r).ever_observed)
pairs_any_order us vs r k fresh f g one ids =
    let ours = r.candidates in
    let theirs = r.remote_candidates in
    rw (get-settle_all k us r fresh, get-settle_all k vs r fresh)
      (watched_same k _ _ (sightings-Included ours theirs us vs f)
        (sightings-Included ours theirs vs us g) (sightings-OneEach ours theirs vs one)
        (sightings-UniquePairs ours theirs vs ids))
