-- ===== src/LanProbe/Snapshots/Newest.antt =====
-- The entries of `statsSnapshots` and the newest digest among them.
use dip_distributed_llm_runt.Prelude.{
  ℕ, ◌≤◌, ◌<◌, ◌≡◌, refl, ap, sym, ◌∙◌, inl, inr, false, List, [], ◌∷◌, ◌++◌, Option, none, some,
  subst, Member, arith, leb, ◌==◌, Bool-cases, Option-cases, if◌then◌else◌,
}
use dip_distributed_llm_runt.LanProbe.Candidates.{Text}
use dip_distributed_llm_runt.LanProbe.Selection.{Digest}
use dip_distributed_llm_runt.LanProbe.Snapshots.{Entry, complete}

abbrev pub entry : ℕ → Text → ℕ → Entry
entry seq trigger now = record {
  seq = seq;
  trigger = trigger;
  requested_at = now;
  completed_at = none;
  digest = none;
  error = none;
}

-- The sequence numbers rise from above `low` to `top` at most.
abbrev pub Rising : ℕ → List Entry → ℕ → Type 0
Rising low [] top = low ≤ top
Rising low (e ∷ es) top = (low < e.seq) × Rising e.seq es top

abbrev pub with_seq : ℕ → Option Digest → Option (ℕ × Digest)
with_seq seq none = none
with_seq seq (some d) = some (seq, d)

-- The last request that gave a digest.
unfoldable pub newest : List Entry → Option (ℕ × Digest)
newest [] = none
newest (e ∷ es) = elim (newest es) [ none ↦ with_seq e.seq e.digest | some x ↦ some x ]

abbrev pub seq_of : Option (ℕ × Digest) → ℕ
seq_of none = 0
seq_of (some x) = x.0

-- A pending entry of the request `seq`.
abbrev pub Pending : ℕ → List Entry → Type 0
Pending seq es = (e : Entry) × Member e es × (e.seq ≡ seq) × (e.digest ≡ none)

pub Rising-le : (low : ℕ) (es : List Entry) (top : ℕ) → Rising low es top → low ≤ top
Rising-le low [] top h = h
Rising-le low (e ∷ es) top (h, hs) = omega (arith, Rising-le e.seq es top hs)

pub Rising-Member :
    (low : ℕ) (es : List Entry) (top : ℕ) (e : Entry)
    → Rising low es top
    → Member e es
    → (low < e.seq) × (e.seq ≤ top)
Rising-Member low [] top e h m = absurd m
Rising-Member low (x ∷ es) top e (h, hs) (inl f) =
    subst (λ (y : Entry). (low < y.seq) × (y.seq ≤ top)) f (h, Rising-le x.seq es top hs)
Rising-Member low (x ∷ es) top e (h, hs) (inr m) =
    let (a, b) = Rising-Member x.seq es top e hs m in (omega arith, b)

-- Two entries of one request are one.
pub Rising-same :
    (low : ℕ) (es : List Entry) (top : ℕ) (e f : Entry)
    → Rising low es top
    → Member e es
    → Member f es
    → e.seq ≡ f.seq
    → e ≡ f
Rising-same low [] top e f h m n q = absurd m
Rising-same low (x ∷ es) top e f (h, hs) (inl a) (inl b) q = sym a ∙ b
Rising-same low (x ∷ es) top e f (h, hs) (inl a) (inr n) q =
    let (above, _) = Rising-Member x.seq es top f hs n in
    let same : x.seq ≡ e.seq = ap (λ (y : Entry). y.seq) a in absurd (omega arith)
Rising-same low (x ∷ es) top e f (h, hs) (inr m) (inl b) q =
    let (above, _) = Rising-Member x.seq es top e hs m in
    let same : x.seq ≡ f.seq = ap (λ (y : Entry). y.seq) b in absurd (omega arith)
Rising-same low (x ∷ es) top e f (h, hs) (inr m) (inr n) q = Rising-same x.seq es top e f hs m n q

pub Rising-raise :
    (low : ℕ) (es : List Entry) (top more : ℕ) → Rising low es top → top ≤ more → Rising low es more
Rising-raise low [] top more h le = omega arith
Rising-raise low (e ∷ es) top more (h, hs) le = (h, Rising-raise e.seq es top more hs le)

pub Rising-append :
    (low : ℕ) (es : List Entry) (top : ℕ) (e : Entry)
    → Rising low es top
    → top < e.seq
    → Rising low (es ++ (e ∷ [])) e.seq
Rising-append low [] top e h lt = (omega arith, omega arith)
Rising-append low (x ∷ es) top e (h, hs) lt = (h, Rising-append x.seq es top e hs lt)

pub newest-append :
    (es : List Entry) (e : Entry) → e.digest ≡ none → newest (es ++ (e ∷ [])) ≡ newest es
unfolding newest
newest-append [] e h = rw h refl
newest-append (x ∷ es) e h = rw (newest-append es e h) refl

newest-above :
    (low : ℕ) (es : List Entry) (top : ℕ) (x : ℕ × Digest)
    → Rising low es top
    → newest es ≡ some x
    → low < x.0
unfolding newest
newest-above low [] top x h e = absurd (cc e)
newest-above low (y ∷ es) top x (h, hs) e = elim (Option-cases (newest es)) [
  | inr (z, f) ↦ let d = newest-above y.seq es top z hs f in ground arith
  | inl f ↦ elim (Option-cases y.digest) [ inl g ↦ ground arith | inr (d, g) ↦ ground arith ]
]

module _ (seq now : ℕ) (digest : Option Digest) (error : Option Text) where
  pub complete-Rising :
      (low : ℕ) (es : List Entry) (top : ℕ)
      → Rising low es top
      → Rising low (complete seq now digest error es) top
  unfolding complete
  complete-Rising low [] top h = h
  complete-Rising low (e ∷ es) top (h, hs) = elim (Bool-cases (e.seq == seq)) [
    | inl f ↦ rw f (h, hs)
    | inr f ↦ rw f (h, complete-Rising e.seq es top hs)
  ]

pub Pending-later :
    (x : Entry) (es : List Entry) (seq : ℕ)
    → Pending seq (x ∷ es)
    → (x.seq == seq) ≡ false
    → Pending seq es
Pending-later x es seq (e, inl m, f, g) q =
    let same : x.seq ≡ seq = ap (λ (y : Entry). y.seq) m ∙ f in absurd (ground arith)
Pending-later x es seq (e, inr m, f, g) q = (e, m, f, g)

pub Pending-above :
    (low : ℕ) (es : List Entry) (top seq : ℕ) → Rising low es top → Pending seq es → low < seq
Pending-above low es top seq h (e, m, f, g) =
    let (a, b) = Rising-Member low es top e h m in omega (arith, f)

-- The request settles with a digest: it is the newest unless a later request has one.
pub newest-complete :
    (low : ℕ) (es : List Entry) (top seq now : ℕ) (d : Digest) (error : Option Text)
    → Rising low es top
    → Pending seq es
    → newest (complete seq now (some d) error es)
      ≡ (if leb (seq_of (newest es)) seq then some (seq, d) else newest es)
unfolding newest complete
newest-complete low [] top seq now d error h (e, m, f, g) = absurd m
newest-complete low (x ∷ es) top seq now d error (h, hs) p = elim (Bool-cases (x.seq == seq)) [
  | inl q ↦ elim (Option-cases (newest es)) [
    | inl k ↦ elim (Option-cases x.digest) [
      | inl j ↦ ground (arith, k, j)
      | inr (d', j) ↦ ground (arith, k, j)
    ]
    | inr (z, k) ↦ let above = newest-above x.seq es top z hs k in ground (arith, k)
  ]
  | inr q ↦
      let later = Pending-later x es seq p q in
      let above = Pending-above x.seq es top seq hs later in
      let step = newest-complete x.seq es top seq now d error hs later in
      elim (Option-cases (newest es)) [
        | inl k ↦ elim (Option-cases x.digest) [
          | inl j ↦ ground (arith, k, j, step)
          | inr (d', j) ↦ ground (arith, k, j, step)
        ]
        | inr (z, k) ↦ ground (arith, k, step)
      ]
]

-- The request fails: what is newest stays.
pub newest-failed :
    (low : ℕ) (es : List Entry) (top seq now : ℕ) (error : Option Text)
    → Rising low es top
    → Pending seq es
    → newest (complete seq now none error es) ≡ newest es
unfolding newest complete
newest-failed low [] top seq now error h (e, m, f, g) = absurd m
newest-failed low (x ∷ es) top seq now error (h, hs) (e, inl m, f, g) =
    let same : x.digest ≡ none = ap (λ (y : Entry). y.digest) m ∙ g in
    let q : x.seq ≡ seq = ap (λ (y : Entry). y.seq) m ∙ f in
    elim (Bool-cases (x.seq == seq)) [
      | inl r ↦ elim (Option-cases (newest es)) [
        | inl k ↦ ground (arith, k, same)
        | inr (z, k) ↦ ground (arith, k)
      ]
      | inr r ↦ absurd (ground arith)
    ]
newest-failed low (x ∷ es) top seq now error (h, hs) (e, inr m, f, g) =
    elim (Bool-cases (x.seq == seq)) [
      | inl r ↦ let above = Pending-above x.seq es top seq hs (e, m, f, g) in absurd (ground arith)
      | inr r ↦ rw (r, newest-failed x.seq es top seq now error hs (e, m, f, g)) refl
    ]
