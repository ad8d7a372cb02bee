-- ===== src/Runtime/Model/WaitingTable.antt =====
-- node.waitingTable of runtime/llmlet-runtime.js: look-ups after a write, a removal and an eviction.
use dip_distributed_llm_runt.Prelude.{
  ℕ, ℕ_discrete, ◌<◌, ◌≤◌, ◌≡◌, ◌≢◌, ◌⊎◌, refl, sym, subst, ◌∙◌, [], ◌∷◌, Option, some, none, arith,
  length, ltb, ◌==◌, if◌then◌else◌, if-cases, Option-cases, inl, inr, true, false, All, All-map,
}
use dip_distributed_llm_runt.Runtime.Model.{
  Entry, Table, find, assign, remove, oldest_done, evict, max_entries,
}

-- Every key is above `i`.
abbrev pub Above : ℕ → Table → Type 0
Above i t = All (λ p. i < p.0) t

abbrev pub Ascending : Table → Type 0
Ascending [] = Unit
Ascending ((i, e) ∷ t) = Above i t × Ascending t

pub find-assign :
    (k i : ℕ) (e : Entry) (t : Table)
    → find k (assign i e t) ≡ (if i == k then some e else find k t)
unfolding find assign
find-assign k i e [] = refl
find-assign k i e ((j, d) ∷ t) = ground (arith, find-assign k i e t)

pub find-remove : (k i : ℕ) (t : Table) → find k (remove i t) ≡ (if i == k then none else find k t)
unfolding find remove
find-remove k i [] = ground arith
find-remove k i ((j, d) ∷ t) = ground (arith, find-remove k i t)

pub find-Above : (i k : ℕ) (t : Table) → Above i t → k ≤ i → find k t ≡ none
unfolding find
find-Above i k [] h le = refl
find-Above i k ((j, d) ∷ t) (lt, h) le = ground (arith, find-Above i k t h le)

Above-weaken : (i k : ℕ) (t : Table) → k ≤ i → Above i t → Above k t
Above-weaken i k t le h = All-map t (λ p lt. omega arith) h

Above-assign : (k i : ℕ) (e : Entry) (t : Table) → k < i → Above k t → Above k (assign i e t)
unfolding assign
Above-assign k i e [] lt h = (lt, tt)
Above-assign k i e ((j, d) ∷ t) lt (l, h) =
    if-cases (Above k) (j == i) (λ _. (l, h))
      (λ _. if-cases (Above k) (ltb i j) (λ _. (lt, (l, h))) (λ _. (l, Above-assign k i e t lt h)))

pub assign-Ascending : (i : ℕ) (e : Entry) (t : Table) → Ascending t → Ascending (assign i e t)
unfolding assign
assign-Ascending i e [] h = (tt, tt)
assign-Ascending i e ((j, d) ∷ t) (l, h) =
    if-cases Ascending (j == i) (λ _. (l, h))
      (λ ne.
        if-cases Ascending (ltb i j)
          (λ lt. ((ground arith, Above-weaken j i t (ground arith) l), (l, h)))
          (λ ge. (Above-assign j i e t (ground arith) l, assign-Ascending i e t h)))

Above-remove : (k i : ℕ) (t : Table) → Above k t → Above k (remove i t)
unfolding remove
Above-remove k i [] h = tt
Above-remove k i ((j, d) ∷ t) (l, h) =
    if-cases (Above k) (j == i) (λ _. Above-remove k i t h) (λ _. (l, Above-remove k i t h))

remove-Ascending : (i : ℕ) (t : Table) → Ascending t → Ascending (remove i t)
unfolding remove
remove-Ascending i [] h = tt
remove-Ascending i ((j, d) ∷ t) (l, h) =
    if-cases Ascending (j == i) (λ _. remove-Ascending i t h)
      (λ _. (Above-remove j i t l, remove-Ascending i t h))

-- `o` is the key and the time of an entry of `t` that is done.
abbrev pub IsDone : Table → Option (ℕ × ℕ) → Type 0
IsDone t none = Unit
IsDone t (some (j, used)) = (e : Entry) × (find j t ≡ some e) × (e.done ≡ true)

IsDone-cons :
    (i : ℕ) (e : Entry) (t : Table) (o : Option (ℕ × ℕ))
    → Above i t
    → IsDone t o
    → IsDone ((i, e) ∷ t) o
unfolding find
IsDone-cons i e t none above h = tt
IsDone-cons i e t (some (j, used)) above (d, found, done) =
    (d, ground (arith, found, find-Above i i t above), done)

abbrev FoundOr : Table → Option (ℕ × ℕ) → Option (ℕ × ℕ) → Type 0
FoundOr t oldest o = (o ≡ oldest) ⊎ IsDone t o

-- The step of the loop at a done entry that is taken, and at one that is not.
taken-FoundOr :
    (i : ℕ) (e : Entry) (t : Table) (oldest o : Option (ℕ × ℕ))
    → Above i t
    → e.done ≡ true
    → FoundOr t (some (i, e.last_used)) o
    → FoundOr ((i, e) ∷ t) oldest o
unfolding find
taken-FoundOr i e t oldest o above done (inl same) =
    inr (subst (IsDone ((i, e) ∷ t)) (sym same) (e, ground arith, done))
taken-FoundOr i e t oldest o above done (inr found) = inr (IsDone-cons i e t o above found)

passed-FoundOr :
    (i : ℕ) (e : Entry) (t : Table) (oldest o : Option (ℕ × ℕ))
    → Above i t
    → FoundOr t oldest o
    → FoundOr ((i, e) ∷ t) oldest o
passed-FoundOr i e t oldest o above (inl same) = inl same
passed-FoundOr i e t oldest o above (inr found) = inr (IsDone-cons i e t o above found)

oldest_done-FoundOr :
    (t : Table) (oldest : Option (ℕ × ℕ)) → Ascending t → FoundOr t oldest (oldest_done t oldest)
unfolding oldest_done
oldest_done-FoundOr [] oldest h = inl refl
oldest_done-FoundOr ((i, e) ∷ t) none (above, h) =
    if-cases (λ o. FoundOr ((i, e) ∷ t) none (oldest_done t o)) e.done
      (λ done.
        let next : Option (ℕ × ℕ) = some (i, e.last_used) in
        taken-FoundOr i e t none (oldest_done t next) above done (oldest_done-FoundOr t next h))
      (λ _. passed-FoundOr i e t none (oldest_done t none) above (oldest_done-FoundOr t none h))
oldest_done-FoundOr ((i, e) ∷ t) (some (j, used)) (above, h) =
    let old : Option (ℕ × ℕ) = some (j, used) in
    let pass : FoundOr ((i, e) ∷ t) old (oldest_done t old) =
      passed-FoundOr i e t old (oldest_done t old) above (oldest_done-FoundOr t old h) in
    if-cases (λ o. FoundOr ((i, e) ∷ t) old (oldest_done t o)) e.done
      (λ done.
        if-cases (λ o. FoundOr ((i, e) ∷ t) old (oldest_done t o)) (ltb e.last_used used)
          (λ _.
            let next : Option (ℕ × ℕ) = some (i, e.last_used) in
            taken-FoundOr i e t old (oldest_done t next) above done (oldest_done-FoundOr t next h))
          (λ _. pass))
      (λ _. pass)

-- What an eviction does: nothing, or it removes an entry that is done.
abbrev pub Evicts : Table → Table → Type 0
Evicts t u =
    (u ≡ t) ⊎ ((j : ℕ) × (e : Entry) × (find j t ≡ some e) × (e.done ≡ true) × (u ≡ remove j t))

evict-Evicts : (t : Table) → Ascending t → Evicts t (evict t)
unfolding evict
evict-Evicts t h =
    if-cases (Evicts t) (ltb max_entries (length t))
      (λ _.
        let o : Option (ℕ × ℕ) = oldest_done t none in
        elim (Option-cases o) [
          | inl nothing ↦ inl (rw nothing refl)
          | inr ((j, used), some_) ↦ elim (oldest_done-FoundOr t none h) [
            | inl same ↦ cc
            | inr found ↦
                let (e, at, done) = subst (IsDone t) some_ found in
                inr (j, e, at, done, rw some_ refl)
          ]
        ])
      (λ _. inl refl)

pub evict-Ascending : (t : Table) → Ascending t → Ascending (evict t)
evict-Ascending t h = elim (evict-Evicts t h) [
  | inl same ↦ subst Ascending (sym same) h
  | inr (j, e, at, done, gone) ↦ subst Ascending (sym gone) (remove-Ascending j t h)
]

-- An entry found after an eviction was there before.
pub find-evict_before :
    (k : ℕ) (e : Entry) (t : Table) → Ascending t → find k (evict t) ≡ some e → find k t ≡ some e
find-evict_before k e t h found = elim (evict-Evicts t h) [
  | inl same ↦ cc
  | inr (j, d, at, done, gone) ↦ ground (arith, find-remove k j t)
]

-- An entry that is still loading stays.
pub find-evict_loading :
    (k : ℕ) (e : Entry) (t : Table)
    → Ascending t
    → find k t ≡ some e
    → e.done ≡ false
    → find k (evict t) ≡ some e
find-evict_loading k e t h found loading = elim (evict-Evicts t h) [
  | inl same ↦ cc
  | inr (j, d, at, done, gone) ↦ ground (arith, find-remove k j t)
]

pub find-assign_self : (i : ℕ) (e : Entry) (t : Table) → find i (assign i e t) ≡ some e
find-assign_self i e t = ground (arith, find-assign i i e t)

pub find-assign_ne : (k i : ℕ) (e : Entry) (t : Table) → i ≢ k → find k (assign i e t) ≡ find k t
find-assign_ne k i e t ne = ground (arith, find-assign k i e t)

-- An entry found after a write is the written one, or was there before.
pub find-assign_cases :
    (k i : ℕ) (d e : Entry) (t : Table)
    → find k (assign i e t) ≡ some d
    → ((i ≡ k) × (d ≡ e)) ⊎ ((i ≢ k) × (find k t ≡ some d))
find-assign_cases k i d e t at = elim (ℕ_discrete i k) [
  | yes same ↦ inl (same, ground (arith, find-assign k i e t))
  | no other ↦ inr (other, sym (find-assign_ne k i e t other) ∙ at)
]
