-- ===== src/LanProbe/Matching/Address.antt =====
-- Where the address of a redacted stats entry comes from.
use dip_distributed_llm_runt.Prelude.{
  ℕ, ◌≡◌, refl, sym, ◌∙◌, ◌⊎◌, inl, inr, Bool, true, false, ◌&&◌, if◌then◌else◌, List, [], ◌∷◌,
  Option, none, some, Member, All, All-map, Bool-cases, Option-cases, arith,
}
use dip_distributed_llm_runt.LanProbe.Candidates.{Text, Signaled, non_empty, num_or_null, or_else}
use dip_distributed_llm_runt.LanProbe.Matching.{
  Stat, Match, same_base, same_strong, same_text?, same_number?, filter, match_strong, match_weak,
  match_signaled, locate_in, is_remote_candidate, locate,
}

-- The address that the stats entry itself gives.
abbrev pub direct : Stat → Option Text
direct stat = or_else (non_empty stat.address) (non_empty stat.ip)

abbrev pub pool : List Signaled → List Signaled → Stat → List Signaled
pool ours theirs stat = if is_remote_candidate stat then theirs else ours

-- Whether a candidate shares the foundation and the priority of an entry that has both.
abbrev pub shares_key : Option Text → Option ℕ → Signaled → Bool
shares_key none priority c = false
shares_key (some foundation) none c = false
shares_key (some foundation) (some priority) c =
    same_text? c.foundation (some foundation) && same_number? c.priority (some priority)

abbrev pub is_keyed : Stat → Signaled → Bool
is_keyed stat c = shares_key (non_empty stat.foundation) (num_or_null stat.priority) c

-- The one candidate that can be meant: any other that agrees on port, protocol and type lacks the
-- foundation and priority of the entry, which this one has.
pub record IsOnly (stat : Stat) (candidates : List Signaled) (c : Signaled) : Type 0 where
  pub listed : Member c candidates
  pub agrees : same_base c stat ≡ true
  pub others :
      All
        (λ (d : Signaled).
          same_base d stat ≡ true
          → (d ≡ c) ⊎ ((is_keyed stat c ≡ true) × (is_keyed stat d ≡ false)))
        candidates

filter-none :
    (p : Signaled → Bool) (xs : List Signaled) → filter p xs ≡ [] → All (λ d. p d ≡ false) xs
unfolding filter
filter-none p [] h = tt
filter-none p (x ∷ xs) h = elim (Bool-cases (p x)) [
  | inl e ↦ absurd (ground arith)
  | inr e ↦ (e, filter-none p xs (rw e at h))
]

filter-one :
    (p : Signaled → Bool) (xs : List Signaled) (c : Signaled)
    → filter p xs ≡ c ∷ []
    → Member c xs × (p c ≡ true) × All (λ d. p d ≡ true → d ≡ c) xs
unfolding filter
filter-one p [] c h = absurd (cc h)
filter-one p (x ∷ xs) c h = elim (Bool-cases (p x)) [
  | inl e ↦
      let here : x ∷ filter p xs ≡ c ∷ [] = rw e at h in
      let same : x ≡ c = cc here in
      let rest : filter p xs ≡ [] = cc here in
      (
        inl same,
        cc (e, same),
        (λ f. same, All-map xs (λ d f g. absurd (cc (f, g))) (filter-none p xs rest)),
      )
  | inr e ↦
      let (a, b, f) = filter-one p xs c (rw e at h) in (inr a, b, (λ g. absurd (cc (e, g)), f))
]

-- A single match of either tier is the only candidate that can be meant.
strong-IsOnly :
    (stat : Stat) (candidates : List Signaled) (c : Signaled) (foundation : Option Text)
    (priority : Option ℕ)
    → non_empty stat.foundation ≡ foundation
    → num_or_null stat.priority ≡ priority
    → match_strong foundation priority candidates stat ≡ c ∷ []
    → IsOnly stat candidates c
unfolding match_strong same_strong
strong-IsOnly stat candidates c none priority f g h = absurd (cc h)
strong-IsOnly stat candidates c (some foundation) none f g h = absurd (cc h)
strong-IsOnly stat candidates c (some foundation) (some priority) f g h =
    let (a, b, d) = filter-one (λ x. same_strong foundation priority x stat) candidates c h in
    record {
      listed = a;
      agrees = unfold same_strong in (ground (arith, b));
      others = All-map candidates (λ x e base. other x e base b) d;
    }
  where
    key : (x : Signaled) → is_keyed stat x ≡ shares_key (some foundation) (some priority) x
    key x = rw (f, g) refl

    other :
        (x : Signaled)
        → (same_strong foundation priority x stat ≡ true → x ≡ c)
        → same_base x stat ≡ true
        → same_strong foundation priority c stat ≡ true
        → (x ≡ c) ⊎ ((is_keyed stat c ≡ true) × (is_keyed stat x ≡ false))
    other x e base b = elim (Bool-cases (shares_key (some foundation) (some priority) x)) [
      | inl k ↦ inl (e (ground (arith, base, k)))
      | inr k ↦ inr (key c ∙ ground (arith, b), key x ∙ k)
    ]

weak-IsOnly :
    (stat : Stat) (candidates : List Signaled) (c : Signaled)
    → filter (λ x. same_base x stat) candidates ≡ c ∷ []
    → IsOnly stat candidates c
weak-IsOnly stat candidates c h =
    let (a, b, d) = filter-one (λ x. same_base x stat) candidates c h in
    record { listed = a; agrees = b; others = All-map candidates (λ x e base. inl (e base)) d }

strong_matches :
    (stat : Stat) (candidates : List Signaled) (d : Signaled) (ds : List Signaled)
    → match_strong (non_empty stat.foundation) (num_or_null stat.priority) candidates stat ≡ d ∷ ds
    → (match_signaled candidates stat).matches ≡ d ∷ ds
unfolding match_signaled
strong_matches stat candidates d ds e = rw (match_signaled, e) refl

weak_matches :
    (stat : Stat) (candidates weak : List Signaled)
    → match_strong (non_empty stat.foundation) (num_or_null stat.priority) candidates stat ≡ []
    → filter (λ x. same_base x stat) candidates ≡ weak
    → (match_signaled candidates stat).matches ≡ weak
unfolding match_signaled match_weak
weak_matches stat candidates [] e f = rw (match_signaled, e, match_weak, f) refl
weak_matches stat candidates (d ∷ ds) e f = rw (match_signaled, e, match_weak, f) refl

one-IsOnly :
    (stat : Stat) (candidates : List Signaled) (c : Signaled) (strong : List Signaled)
    → match_strong (non_empty stat.foundation) (num_or_null stat.priority) candidates stat ≡ strong
    → (match_signaled candidates stat).matches ≡ c ∷ []
    → IsOnly stat candidates c
one-IsOnly stat candidates c [] e h =
    weak-IsOnly stat candidates c (sym (weak_matches stat candidates _ e refl) ∙ h)
one-IsOnly stat candidates c (d ∷ ds) e h =
    strong-IsOnly stat candidates c _ _ refl refl
      (e ∙ sym (strong_matches stat candidates d ds e) ∙ h)

locate_in-address :
    (found : Match) (matches : List Signaled) (address : Text)
    → found.matches ≡ matches
    → (locate_in found).address ≡ some address
    → (c : Signaled) × (matches ≡ c ∷ []) × (c.address ≡ some address)
unfolding locate_in
locate_in-address found [] address e h = absurd (cc (rw e at h))
locate_in-address found (c ∷ []) address e h = (c, refl, rw e at h)
locate_in-address found (c ∷ d ∷ cs) address e h = absurd (cc (rw e at h))

-- An address that the probe reports is the one that the statistics give, or else that of the only
-- signalled candidate of the right side that can be meant: with none, or with several, it reports none.
pub address_known :
    (ours theirs : List Signaled) (stat : Stat) (address : Text)
    → (locate ours theirs stat).address ≡ some address
    → (direct stat ≡ some address)
      ⊎ ((direct stat ≡ none)
          × ((c : Signaled) × IsOnly stat (pool ours theirs stat) c × (c.address ≡ some address)))
unfolding locate
address_known ours theirs stat address h = elim (Option-cases (direct stat)) [
  | inr (a, e) ↦ inl (e ∙ (rw (locate, e) at h))
  | inl e ↦
      let candidates = pool ours theirs stat in
      let (c, one, given) =
        locate_in-address (match_signaled candidates stat) _ address refl (rw (locate, e) at h) in
      inr (e, (c, one-IsOnly stat candidates c _ refl one, given))
]
