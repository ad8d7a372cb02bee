-- ===== src/LanProbe/Snapshots/Facts.antt =====
-- The facts about a pair, as a description that no order enters: what the observations of the pair say
-- together.
use dip_distributed_llm_runt.Prelude.{
  ℕ, ◌≤◌, ◌≡◌, refl, ap, inl, inr, Bool, true, false, ◌||◌, List, [], ◌∷◌, Option, some, Member,
  All, Bool-cases, arith,
}
use dip_distributed_llm_runt.LanProbe.Candidates.{Text}
use dip_distributed_llm_runt.LanProbe.Matching.{Described, same_text?}
use dip_distributed_llm_runt.LanProbe.Selection.{Pair}
use dip_distributed_llm_runt.LanProbe.Snapshots.{Observed, has_state}
use dip_distributed_llm_runt.LanProbe.Snapshots.Merging.{Seen}

-- Whether some observation passes a test.
abbrev pub ever : (Pair → Bool) → List Seen → Bool
ever test [] = false
ever test ((seq, p) ∷ xs) = test p || ever test xs

-- The latest observation, as the record of the pair keeps it.
pub record IsLatest (xs : List Seen) (o : Observed) : Type 0 where
  pub seq : ℕ
  pub pair : Pair
  pub seen : Member (seq, pair) xs
  pub newest : All (λ (x : Seen). x.0 ≤ seq) xs
  pub last_seen : o.last_seen ≡ some seq
  pub last_state : o.last_state ≡ pair.state
  pub local : o.local ≡ pair.local
  pub remote : o.remote ≡ pair.remote

pub record IsEarliest (xs : List Seen) (o : Observed) : Type 0 where
  pub pair : Pair
  pub seen : Member (o.first_seen, pair) xs
  pub oldest : All (λ (x : Seen). o.first_seen ≤ x.0) xs

pub record IsEver (xs : List Seen) (o : Observed) : Type 0 where
  pub states : (s : Option Text) → has_state s o.states_seen ≡ ever (λ p. same_text? p.state s) xs
  pub nominated : o.ever_nominated ≡ ever (λ p. p.nominated) xs
  pub selected : o.ever_selected ≡ ever (λ p. p.selected) xs

pub record IsSummary (xs : List Seen) (o : Observed) : Type 0 where
  pub latest : IsLatest xs o
  pub earliest : IsEarliest xs o
  pub ever : IsEver xs o

-- What is known of a pair, with the states that were seen as a set.
pub record Facts : Type 0 where
  pub first_seen : ℕ
  pub last_seen : Option ℕ
  pub seen_in : Option Text → Bool
  pub last_state : Option Text
  pub ever_nominated : Bool
  pub ever_selected : Bool
  pub local : Option Described
  pub remote : Option Described

unfoldable pub facts : Observed → Facts
facts o = record {
  first_seen = o.first_seen;
  last_seen = o.last_seen;
  seen_in = λ s. has_state s o.states_seen;
  last_state = o.last_state;
  ever_nominated = o.ever_nominated;
  ever_selected = o.ever_selected;
  local = o.local;
  remote = o.remote;
}

ever-Member :
    (test : Pair → Bool) (x : Seen) (xs : List Seen)
    → Member x xs
    → test x.1 ≡ true
    → ever test xs ≡ true
ever-Member test x [] m h = absurd m
ever-Member test x (y ∷ ys) (inl e) h =
    let f : y.1 ≡ x.1 = ap (λ (z : Seen). z.1) e in rw (f, h) refl
ever-Member test x (y ∷ ys) (inr m) h = ground (arith, ever-Member test x ys m h)

ever-found :
    (test : Pair → Bool) (xs : List Seen)
    → ever test xs ≡ true
    → (x : Seen) × Member x xs × (test x.1 ≡ true)
ever-found test [] h = absurd (cc h)
ever-found test (y ∷ ys) h = elim (Bool-cases (test y.1)) [
  | inl e ↦ (y, inl refl, e)
  | inr e ↦ let (x, m, f) = ever-found test ys (ground arith) in (x, inr m, f)
]

abbrev pub Within : List Seen → List Seen → Type 0
Within xs ys = (x : Seen) → Member x xs → Member x ys

pub ever_same :
    (test : Pair → Bool) (xs ys : List Seen)
    → Within xs ys
    → Within ys xs
    → ever test xs ≡ ever test ys
ever_same test xs ys f g = elim (Bool-cases (ever test xs)) [
  | inl e ↦ let (x, m, h) = ever-found test xs e in cc (e, ever-Member test x ys (f x m) h)
  | inr e ↦ elim (Bool-cases (ever test ys)) [
    | inl d ↦
        let (y, m, h) = ever-found test ys d in absurd (cc (e, ever-Member test y xs (g y m) h))
    | inr d ↦ cc (e, d)
  ]
]
