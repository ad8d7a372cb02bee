-- ===== src/LanProbe/Snapshots/Sources.antt =====
-- The digests that the entries of statsSnapshots hold, in scripts/lan-probe.js.
use dip_distributed_llm_runt.Prelude.{
  ℕ, ◌≡◌, refl, ap, sym, ◌∙◌, ◌⊎◌, inl, inr, false, List, [], ◌∷◌, ◌++◌, Option, none, some, subst,
  Member, ◌==◌, ==_iff, Bool-cases, Option-cases,
}
use dip_distributed_llm_runt.LanProbe.Candidates.{Text}
use dip_distributed_llm_runt.LanProbe.Selection.{Digest}
use dip_distributed_llm_runt.LanProbe.Snapshots.{Entry, complete}
use dip_distributed_llm_runt.LanProbe.Snapshots.Merging.{Sighting}
use dip_distributed_llm_runt.LanProbe.Snapshots.Order.{OneEach, Included}
use dip_distributed_llm_runt.LanProbe.Snapshots.Newest.{Rising, Rising-same, Pending, Pending-later}

abbrev pub sight : ℕ → Option Digest → List Sighting → List Sighting
sight seq none hs = hs
sight seq (some d) hs = (seq, d.pairs) ∷ hs

unfoldable pub sightings : List Entry → List Sighting
sightings [] = []
sightings (e ∷ es) = sight e.seq e.digest (sightings es)

pub sightings-append :
    (es : List Entry) (e : Entry) → e.digest ≡ none → sightings (es ++ (e ∷ [])) ≡ sightings es
unfolding sightings
sightings-append [] e h = rw h refl
sightings-append (x ∷ es) e h = rw (sightings-append es e h) refl

-- An entry that a sighting comes from.
pub sightings-origin :
    (es : List Entry) (x : Sighting)
    → Member x (sightings es)
    → (e : Entry) × Member e es × (d : Digest) × (e.digest ≡ some d) × (x ≡ (e.seq, d.pairs))
unfolding sightings
sightings-origin [] x m = absurd m
sightings-origin (e ∷ es) x m = elim (Option-cases e.digest) [
  | inl f ↦
      let (a, b, c, d, g) =
        sightings-origin es x (subst (λ o. Member x (sight e.seq o (sightings es))) f m) in
      (a, inr b, c, d, g)
  | inr (d, f) ↦ elim (subst (λ o. Member x (sight e.seq o (sightings es))) f m) [
    | inl g ↦ (e, inl refl, d, f, sym g)
    | inr n ↦ let (a, b, c, i, j) = sightings-origin es x n in (a, inr b, c, i, j)
  ]
]

pub sightings-made :
    (es : List Entry) (e : Entry) (d : Digest)
    → Member e es
    → e.digest ≡ some d
    → Member (e.seq, d.pairs) (sightings es)
unfolding sightings
sightings-made [] e d m f = absurd m
sightings-made (x ∷ es) e d (inl a) f =
    subst (λ (y : Entry). Member (y.seq, d.pairs) (sight x.seq x.digest (sightings es))) a
      (rw (ap (λ (y : Entry). y.digest) a ∙ f) (inl refl))
sightings-made (x ∷ es) e d (inr m) f =
    let rest = sightings-made es e d m f in
    elim (Option-cases x.digest) [ inl g ↦ rw g rest | inr (d', g) ↦ rw g (inr rest) ]

-- One digest at most for each request.
pub sightings-OneEach :
    (low : ℕ) (es : List Entry) (top : ℕ) → Rising low es top → OneEach (sightings es)
sightings-OneEach low es top h n p q m m' =
    let (e, a, d, f, g) = sightings-origin es (n, p) m in
    let (e', a', d', f', g') = sightings-origin es (n, q) m' in
    let seqs : e.seq ≡ e'.seq =
      ap (λ (y : Sighting). y.0) (sym g) ∙ ap (λ (y : Sighting). y.0) g' in
    let same = Rising-same low es top e e' h a a' seqs in
    let digests : some d ≡ some d' = sym f ∙ ap (λ (y : Entry). y.digest) same ∙ f' in
    let one : d ≡ d' = cc digests in
    ap (λ (y : Sighting). y.1) g
    ∙ ap (λ (y : Digest). y.pairs) one
    ∙ ap (λ (y : Sighting). y.1) (sym g')

pub sight-kept :
    (seq : ℕ) (o : Option Digest) (hs : List Sighting) (x : Sighting)
    → Member x hs
    → Member x (sight seq o hs)
sight-kept seq none hs x m = m
sight-kept seq (some d) hs x m = inr m

pub sight-origin :
    (seq : ℕ) (o : Option Digest) (hs : List Sighting) (x : Sighting)
    → Member x (sight seq o hs)
    → ((d : Digest) × (o ≡ some d) × (x ≡ (seq, d.pairs))) ⊎ Member x hs
sight-origin seq none hs x m = inr m
sight-origin seq (some d) hs x (inl e) = inl (d, refl, sym e)
sight-origin seq (some d) hs x (inr m) = inr m

module _ (seq now : ℕ) (digest : Option Digest) (error : Option Text) where
  pub complete-origin :
      (es : List Entry) (e : Entry)
      → Member e (complete seq now digest error es)
      → Member e es ⊎ ((e.seq ≡ seq) × (e.digest ≡ digest))
  unfolding complete
  complete-origin [] e m = absurd m
  complete-origin (x ∷ es) e m = elim (Bool-cases (x.seq == seq)) [
    | inl q ↦ elim (rw q at m) [
      | inl a ↦ inr (
        ap (λ (y : Entry). y.seq) (sym a) ∙ (==_iff x.seq seq).0 q,
        ap (λ (y : Entry). y.digest) (sym a),
      )
      | inr n ↦ inl (inr n)
    ]
    | inr q ↦ elim (rw q at m) [
      | inl a ↦ inl (inl a)
      | inr n ↦ elim (complete-origin es e n) [ inl k ↦ inl (inr k) | inr k ↦ inr k ]
    ]
  ]

  pub complete-kept :
      (es : List Entry) (e : Entry)
      → Member e es
      → (e.seq == seq) ≡ false
      → Member e (complete seq now digest error es)
  unfolding complete
  complete-kept [] e m f = absurd m
  complete-kept (x ∷ es) e (inl a) f =
      let g : (x.seq == seq) ≡ false = ap (λ (y : Entry). y.seq == seq) a ∙ f in rw g (inl a)
  complete-kept (x ∷ es) e (inr m) f = elim (Bool-cases (x.seq == seq)) [
    | inl q ↦ rw q (inr m)
    | inr q ↦ rw q (inr (complete-kept es e m f))
  ]

  pub complete-made :
      (es : List Entry)
      → Pending seq es
      → (e : Entry) × Member e (complete seq now digest error es)
        × (e.seq ≡ seq)
        × (e.digest ≡ digest)
  unfolding complete
  complete-made [] (e, m, f, g) = absurd m
  complete-made (x ∷ es) p = elim (Bool-cases (x.seq == seq)) [
    | inl q ↦ (
      record x { completed_at = some now; digest = digest; error = error },
      rw q (inl refl),
      (==_iff x.seq seq).0 q,
      refl,
    )
    | inr q ↦
        let (e, m, f, g) = complete-made es (Pending-later x es seq p q) in (e, rw q (inr m), f, g)
  ]

  pub sightings-new :
      (es : List Entry)
      → Included (sightings (complete seq now digest error es)) (sight seq digest (sightings es))
  sightings-new es x m =
      let (e, a, d, f, g) = sightings-origin (complete seq now digest error es) x m in
      elim (complete-origin es e a) [
        | inl n ↦ sight-kept seq digest _ x (rw g (sightings-made es e d n f))
        | inr (b, c) ↦
            let known : digest ≡ some d = sym c ∙ f in
            rw known (inl (ap (λ (k : ℕ). (k, d.pairs)) (sym b) ∙ sym g))
      ]

  pub sightings-old :
      (low : ℕ) (es : List Entry) (top : ℕ)
      → Rising low es top
      → Pending seq es
      → Included (sight seq digest (sightings es)) (sightings (complete seq now digest error es))
  sightings-old low es top h p x m = elim (sight-origin seq digest (sightings es) x m) [
    | inl (d, f, g) ↦
        let (e, a, b, c) = complete-made es p in
        let made = sightings-made (complete seq now digest error es) e d a (c ∙ f) in
        let same : (e.seq, d.pairs) ≡ x = ap (λ (k : ℕ). (k, d.pairs)) b ∙ sym g in
        subst (λ y. Member y (sightings (complete seq now digest error es))) same made
    | inr n ↦
        let (e, a, d, f, g) = sightings-origin es x n in
        elim (Bool-cases (e.seq == seq)) [
          | inl q ↦
              let (e', a', b', c') = p in
              let same = Rising-same low es top e e' h a a' ((==_iff e.seq seq).0 q ∙ sym b') in
              absurd (cc (f, c', ap (λ (y : Entry). y.digest) same))
          | inr q ↦
              rw g
                (sightings-made (complete seq now digest error es) e d (complete-kept es e a q) f)
        ]
  ]
