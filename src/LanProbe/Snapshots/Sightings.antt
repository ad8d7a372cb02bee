-- ===== src/LanProbe/Snapshots/Sightings.antt =====
-- The digests that the entries of `statsSnapshots` hold, and pairsEverObserved rebuilt from them.
use dip_distributed_llm_runt.Prelude.{
  ◌≡◌, refl, sym, ◌∙◌, ◌⊎◌, inl, inr, List, [], ◌∷◌, none, some, Member, Option-cases,
}
use dip_distributed_llm_runt.Prelude.Dict
use dip_distributed_llm_runt.Prelude.Dict.{Dict}
use dip_distributed_llm_runt.LanProbe.Candidates.{Text}
use dip_distributed_llm_runt.LanProbe.Snapshots.{Id-discrete, Observed, Entry, merge_pairs}
use dip_distributed_llm_runt.LanProbe.Snapshots.Merging.{
  Sighting, watched, observe_all, get-merge_pairs,
}
use dip_distributed_llm_runt.LanProbe.Snapshots.Order.{Included}
use dip_distributed_llm_runt.LanProbe.Snapshots.Sources.{sight, sightings, sight-kept, sight-origin}

-- pairsEverObserved as it would be if the digests were merged in the order of the requests.
unfoldable pub replay : List Entry → Dict Text Observed → Dict Text Observed
replay [] seen = seen
replay (e ∷ es) seen = elim e.digest [
  | none ↦ replay es seen
  | some d ↦ replay es (merge_pairs e.seq d.pairs seen)
]

-- The sightings that `replay` leaves, on top of those there are.
unfoldable pub replayed : List Entry → List Sighting → List Sighting
replayed [] hs = hs
replayed (e ∷ es) hs = replayed es (sight e.seq e.digest hs)

pub get-replay :
    (k : Text) (es : List Entry) (hs : List Sighting) (seen : Dict Text Observed)
    → Dict.get Id-discrete k seen ≡ observe_all (watched k hs)
    → Dict.get Id-discrete k (replay es seen) ≡ observe_all (watched k (replayed es hs))
unfolding replay replayed
get-replay k [] hs seen h = h
get-replay k (e ∷ es) hs seen h = elim (Option-cases e.digest) [
  | inl f ↦ rw f (get-replay k es hs seen h)
  | inr (d, f) ↦ rw f (
      get-replay k es ((e.seq, d.pairs) ∷ hs) _
        (get-merge_pairs k e.seq d.pairs (watched k hs) seen h ∙ unfold watched in refl))
]

replayed-kept :
    (es : List Entry) (hs : List Sighting) (x : Sighting)
    → Member x hs ⊎ Member x (sightings es)
    → Member x (replayed es hs)
unfolding replayed sightings
replayed-kept [] hs x (inl m) = m
replayed-kept [] hs x (inr m) = absurd m
replayed-kept (e ∷ es) hs x (inl m) =
    replayed-kept es (sight e.seq e.digest hs) x (inl (sight-kept e.seq e.digest hs x m))
replayed-kept (e ∷ es) hs x (inr m) = elim (sight-origin e.seq e.digest (sightings es) x m) [
  | inl (d, f, g) ↦ replayed-kept es (sight e.seq e.digest hs) x (inl (rw f (inl (sym g))))
  | inr n ↦ replayed-kept es (sight e.seq e.digest hs) x (inr n)
]

replayed-origin :
    (es : List Entry) (hs : List Sighting) (x : Sighting)
    → Member x (replayed es hs)
    → Member x hs ⊎ Member x (sightings es)
unfolding replayed sightings
replayed-origin [] hs x m = inl m
replayed-origin (e ∷ es) hs x m = elim (replayed-origin es (sight e.seq e.digest hs) x m) [
  | inl n ↦ elim (sight-origin e.seq e.digest hs x n) [
    | inl (d, f, g) ↦ inr (rw f (inl (sym g)))
    | inr k ↦ inl k
  ]
  | inr n ↦ inr (sight-kept e.seq e.digest (sightings es) x n)
]

pub replayed-Included :
    (es : List Entry)
    → Included (replayed es []) (sightings es) × Included (sightings es) (replayed es [])
replayed-Included es = (
  λ x m. elim (replayed-origin es [] x m) [ inl n ↦ absurd n | inr n ↦ n ],
  λ x m. replayed-kept es [] x (inr m),
)
