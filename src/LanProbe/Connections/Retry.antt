-- ===== src/LanProbe/Connections/Retry.antt =====
-- The retries of `associate`.
use dip_distributed_llm_runt.Prelude.{
  List, get_elem?, ℕ, zero, suc, ◌+◌, ◌<◌, ◌≤◌, ◌≡◌, ◌≢◌, refl, ap, ◌⊎◌, inl, inr, [], ◌∷◌, Option,
  none, some, arith, leb, Bool-cases, Option-cases,
}
use dip_distributed_llm_runt.LanProbe.Candidates.{Text, non_empty, option_map}
use dip_distributed_llm_runt.LanProbe.Snapshots.{Rec, Direction}
use dip_distributed_llm_runt.LanProbe.Connections.{
  modify, Probe, Association, on_connection, name_peer, retry, attempts, associate, nothing, found,
}

-- Attempt `n` is the first at which the peer connection is there, and `w` is what it is.
pub record IsFirst (pc : ℕ → Option (Option ℕ)) (n : ℕ) (w : Option ℕ) : Type 0 where
  pub there : pc n ≡ some w
  pub before : (m : ℕ) → m < n → pc m ≡ none

abbrev pub outcome : Option ℕ → Association
outcome none = nothing
outcome (some i) = found i

abbrev pub Never : (ℕ → Option (Option ℕ)) → Type 0
Never pc = (m : ℕ) → m ≤ 10 → pc m ≡ none

below-suc :
    (pc : ℕ → Option (Option ℕ)) (n : ℕ)
    → ((m : ℕ) → m < n → pc m ≡ none)
    → pc n ≡ none
    → (m : ℕ) → m < suc n
    → pc m ≡ none
below-suc pc n h e m lt =
    let last : (m < n) ⊎ (m ≡ n) = omega arith in
    elim last [ inl l ↦ h m l | inr q ↦ cc (ap pc q, e) ]

retry-ends :
    (pc : ℕ → Option (Option ℕ)) (fuel attempt : ℕ)
    → fuel + attempt ≡ 11
    → ((m : ℕ) → m < attempt → pc m ≡ none)
    → attempt ≤ 10
    → ((n : ℕ) × (w : Option ℕ) × (n ≤ 10)
        × IsFirst pc n w
        × (retry pc fuel attempt ≡ some (outcome w)))
      ⊎ (Never pc × (retry pc fuel attempt ≡ some nothing))
unfolding retry
retry-ends pc zero attempt q h le = absurd (omega arith)
retry-ends pc (suc fuel) attempt q h le = elim (Option-cases (pc attempt)) [
  | inr (none, e) ↦ inl (attempt, none, le, record { there = e; before = h }, rw (retry, e) refl)
  | inr (some i, e) ↦
      inl (attempt, some i, le, record { there = e; before = h }, rw (retry, e) refl)
  | inl e ↦ elim (Bool-cases (leb 10 attempt)) [
    | inl f ↦ inr (λ m l. below-suc pc attempt h e m (ground arith), rw (retry, e, f) refl)
    | inr f ↦
        let again =
          retry-ends pc fuel (suc attempt) (omega arith) (below-suc pc attempt h e)
            (ground arith) in
        elim again [
          | inl (n, w, a, b, c) ↦ inl (n, w, a, b, rw (retry, e, f) c)
          | inr (a, c) ↦ inr (a, rw (retry, e, f) c)
        ]
  ]
]

-- The record of a connection that belongs to the peer.
abbrev pub belonging : Text → Direction → Rec → Rec
belonging id direction r = record r { peer_id = some id; direction = some direction }

-- Connection `i` of `t`, if it is there, names the peer and is otherwise that of `s`, and nothing else differs.
pub record IsNamed (id : Text) (direction : Direction) (i : ℕ) (s t : Probe) : Type 0 where
  pub at :
      get_elem? t.connections i ≡ option_map (belonging id direction) (get_elem? s.connections i)
  pub others : (j : ℕ) → i ≢ j → get_elem? t.connections j ≡ get_elem? s.connections j
  pub rest : t ≡ record s { connections = t.connections }

-- What an attempt that found `w` comes to: the probe has not wrapped the peer connection, or it has.
abbrev pub Named : Text → Direction → Option ℕ → Probe → Probe → Type 0
Named id direction none s t = t ≡ s
Named id direction (some i) s t = IsNamed id direction i s t

get_elem?-modify_self :
    (i : ℕ) (f : Rec → Rec) (rs : List Rec)
    → get_elem? (modify i f rs) i ≡ option_map f (get_elem? rs i)
unfolding modify
get_elem?-modify_self i f [] = refl
get_elem?-modify_self zero f (r ∷ rs) = refl
get_elem?-modify_self (suc i) f (r ∷ rs) = get_elem?-modify_self i f rs

get_elem?-modify_ne :
    (i j : ℕ) (f : Rec → Rec) (rs : List Rec) → i ≢ j → get_elem? (modify i f rs) j ≡ get_elem? rs j
unfolding modify
get_elem?-modify_ne i j f [] h = refl
get_elem?-modify_ne zero zero f (r ∷ rs) h = absurd (h refl)
get_elem?-modify_ne zero (suc j) f (r ∷ rs) h = refl
get_elem?-modify_ne (suc i) zero f (r ∷ rs) h = refl
get_elem?-modify_ne (suc i) (suc j) f (r ∷ rs) h = get_elem?-modify_ne i j f rs (λ e. h (ap suc e))

name_peer-IsNamed :
    (id : Text) (direction : Direction) (i : ℕ) (s : Probe)
    → IsNamed id direction i s (on_connection i (name_peer id direction) s)
unfolding name_peer
name_peer-IsNamed id direction i s = record {
  at = get_elem?-modify_self i (belonging id direction) s.connections;
  others = λ j h. get_elem?-modify_ne i j (belonging id direction) s.connections h;
  rest = refl;
}

-- The association of a peer always ends, after eleven attempts at most. It names the peer and the direction on
-- the connection that the first attempt to see a peer connection found, when the probe wrapped that one, and
-- changes nothing else; it changes nothing at all when the probe did not wrap it, or when none of the eleven
-- attempts saw one.
pub associate_ends :
    (pc : ℕ → Option (Option ℕ)) (id : Text) (direction : Direction) (s : Probe)
    → id ≢ []
    → ((n : ℕ) × (w : Option ℕ) × (t : Probe) × (n ≤ 10)
        × IsFirst pc n w
        × (associate pc (some id) direction s ≡ some t)
        × Named id direction w s t)
      ⊎ (Never pc × (associate pc (some id) direction s ≡ some s))
unfolding associate non_empty retry
associate_ends pc [] direction s h = absurd (h refl)
associate_ends pc (x ∷ xs) direction s h =
    elim (retry-ends pc attempts 0 refl (λ m l. absurd (omega arith)) (omega arith)) [
      | inl (n, none, a, b, e) ↦ inl (n, none, s, a, b, rw e refl, refl)
      | inl (n, some i, a, b, e) ↦
          inl (n, some i, _, a, b, rw e refl, name_peer-IsNamed (x ∷ xs) direction i s)
      | inr (a, e) ↦ inr (a, rw e refl)
    ]
