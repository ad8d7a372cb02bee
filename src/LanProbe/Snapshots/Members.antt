-- ===== src/LanProbe/Snapshots/Members.antt =====
-- Which observations the digests of a connection make of a pair.
use dip_distributed_llm_runt.Prelude.{
  ℕ, ◌≡◌, ap, sym, ◌∙◌, ◌⊎◌, inl, inr, if_pos, if_neg, List, [], ◌∷◌, subst, Member,
}
use dip_distributed_llm_runt.LanProbe.Candidates.{Text}
use dip_distributed_llm_runt.LanProbe.Selection.{Pair}
use dip_distributed_llm_runt.LanProbe.Snapshots.{Id-discrete}
use dip_distributed_llm_runt.LanProbe.Snapshots.Merging.{Seen, Sighting, watched_in, watched}

watched_in-kept :
    (k : Text) (seq : ℕ) (ps : List Pair) (x : Seen) (before : List Seen)
    → Member x before
    → Member x (watched_in k seq ps before)
unfolding watched_in
watched_in-kept k seq [] x before m = m
watched_in-kept k seq (p ∷ ps) x before m = elim (Id-discrete p.id k) [
  | yes e ↦ rw (if_pos _ e) (watched_in-kept k seq ps x _ (inr m))
  | no e ↦ rw (if_neg _ e) (watched_in-kept k seq ps x _ m)
]

watched_in-added :
    (k : Text) (seq : ℕ) (ps : List Pair) (p : Pair) (before : List Seen)
    → Member p ps
    → p.id ≡ k
    → Member (seq, p) (watched_in k seq ps before)
unfolding watched_in
watched_in-added k seq [] p before m e = absurd m
watched_in-added k seq (q ∷ ps) p before (inl d) e =
    let f : q.id ≡ k = ap (λ (r : Pair). r.id) d ∙ e in
    rw (if_pos _ f) (watched_in-kept k seq ps (seq, p) _ (inl (ap (λ (r : Pair). (seq, r)) d)))
watched_in-added k seq (q ∷ ps) p before (inr m) e = watched_in-added k seq ps p _ m e

watched_in-origin :
    (k : Text) (seq : ℕ) (ps : List Pair) (x : Seen) (before : List Seen)
    → Member x (watched_in k seq ps before)
    → ((x.0 ≡ seq) × Member x.1 ps × (x.1.id ≡ k)) ⊎ Member x before
unfolding watched_in
watched_in-origin k seq [] x before m = inr m
watched_in-origin k seq (p ∷ ps) x before m = elim (Id-discrete p.id k) [
  | yes e ↦ elim (watched_in-origin k seq ps x ((seq, p) ∷ before) (rw (if_pos _ e) at m)) [
    | inl (a, b, c) ↦ inl (a, inr b, c)
    | inr (inl d) ↦ inl (
      ap (λ (y : Seen). y.0) (sym d),
      inl (ap (λ (y : Seen). y.1) d),
      ap (λ (y : Seen). y.1.id) (sym d) ∙ e,
    )
    | inr (inr n) ↦ inr n
  ]
  | no e ↦ elim (watched_in-origin k seq ps x before (rw (if_neg _ e) at m)) [
    | inl (a, b, c) ↦ inl (a, inr b, c)
    | inr n ↦ inr n
  ]
]

-- The sighting that an observation comes from.
abbrev pub Origin : Text → Seen → List Sighting → Type 0
Origin k x hs = (ps : List Pair) × Member (x.0, ps) hs × Member x.1 ps × (x.1.id ≡ k)

pub watched-Origin :
    (k : Text) (hs : List Sighting) (x : Seen) → Member x (watched k hs) → Origin k x hs
unfolding watched
watched-Origin k [] x m = absurd m
watched-Origin k ((seq, ps) ∷ hs) x m = elim (watched_in-origin k seq ps x _ m) [
  | inl (a, b, c) ↦ (ps, inl (ap (λ (n : ℕ). (n, ps)) (sym a)), b, c)
  | inr n ↦ let (a, b, c, d) = watched-Origin k hs x n in (a, inr b, c, d)
]

pub watched-made :
    (k : Text) (hs : List Sighting) (x : Seen) → Origin k x hs → Member x (watched k hs)
unfolding watched
watched-made k [] x (a, m, b, c) = absurd m
watched-made k ((seq, ps) ∷ hs) x (a, inr m, b, c) =
    watched_in-kept k seq ps x _ (watched-made k hs x (a, m, b, c))
watched-made k ((seq, ps) ∷ hs) x (a, inl e, b, c) =
    let s : seq ≡ x.0 = ap (λ (y : Sighting). y.0) e in
    let t : ps ≡ a = ap (λ (y : Sighting). y.1) e in
    subst (λ n. Member (n, x.1) (watched k ((seq, ps) ∷ hs))) s
      (watched_in-added k seq ps x.1 (watched k hs) (rw t b) c)
