-- ===== src/LanProbe/Snapshots/Summary.antt =====
-- mergeObserved keeps what the observations of a pair say together, whatever their order.
use dip_distributed_llm_runt.Prelude.{
  ℕ, ◌≤◌, ◌≡◌, refl, ap, subst, sym, ◌∙◌, inl, inr, true, ◌||◌, if◌then◌else◌, List, [], ◌∷◌, ◌++◌,
  Option, some, Member, All, All-map, Bool-cases, arith, ltb, leb,
}
use dip_distributed_llm_runt.LanProbe.Candidates.{Text}
use dip_distributed_llm_runt.LanProbe.Matching.{same_text?}
use dip_distributed_llm_runt.LanProbe.Matching.Same.{same_text?_eq}
use dip_distributed_llm_runt.LanProbe.Selection.{Pair}
use dip_distributed_llm_runt.LanProbe.Snapshots.{
  Observed, first_observed, has_state, observe_ever, observe_latest, observe,
}
use dip_distributed_llm_runt.LanProbe.Snapshots.Merging.{Seen, observe_all}
use dip_distributed_llm_runt.LanProbe.Snapshots.Facts.{IsLatest, IsEarliest, IsEver, IsSummary}

-- What `observe` does to each group of fields.
has_state-append :
    (s t : Option Text) (ts : List (Option Text))
    → has_state s (ts ++ (t ∷ [])) ≡ has_state s ts || same_text? t s
unfolding has_state
has_state-append s t [] = ground arith
has_state-append s t (u ∷ ts) = ground (arith, has_state-append s t ts)

-- A state that is there already need not be added.
has_state_same :
    (s t : Option Text) (ts : List (Option Text))
    → has_state t ts ≡ true
    → same_text? t s ≡ true
    → has_state s ts ≡ true
has_state_same s t ts h e = let q = same_text?_eq t s e in cc (h, q)

has_state_added :
    (s t : Option Text) (ts : List (Option Text))
    → has_state s (if has_state t ts then ts else ts ++ (t ∷ [])) ≡ same_text? t s || has_state s ts
has_state_added s t ts = ground (arith, has_state_same s t ts, has_state-append s t ts)

latest_keeps :
    (seq : ℕ) (p : Pair) (o : Observed)
    → ((observe_latest seq p o).first_seen ≡ o.first_seen)
      × ((observe_latest seq p o).states_seen ≡ o.states_seen)
      × ((observe_latest seq p o).ever_nominated ≡ o.ever_nominated)
      × ((observe_latest seq p o).ever_selected ≡ o.ever_selected)
unfolding observe_latest
latest_keeps seq p o = ground arith

abbrev both : ℕ → Pair → Observed → Observed
both seq p o = observe_latest seq p (observe_ever seq p o)

IsEver-step :
    (seq : ℕ) (p : Pair) (xs : List Seen) (o : Observed)
    → IsEver xs o
    → IsEver ((seq, p) ∷ xs) (both seq p o)
unfolding observe_ever
IsEver-step seq p xs o h =
    let (_, b, c, d) = latest_keeps seq p (observe_ever seq p o) in
    record {
      states = λ s. rw b (has_state_added s p.state o.states_seen ∙ rw (h.states s) refl);
      nominated = rw c (ground (arith, h.nominated));
      selected = rw d (ground (arith, h.selected));
    }

IsEarliest-step :
    (seq : ℕ) (p : Pair) (xs : List Seen) (o : Observed)
    → IsEarliest xs o
    → IsEarliest ((seq, p) ∷ xs) (both seq p o)
unfolding observe_ever
IsEarliest-step seq p xs o h =
    let (a, _, _, _) = latest_keeps seq p (observe_ever seq p o) in
    elim (Bool-cases (ltb seq o.first_seen)) [
      | inl e ↦
          let f : (both seq p o).first_seen ≡ seq = rw (a, e) refl in
          record {
            pair = p;
            seen = inl (ap (λ (n : ℕ). (n, p)) (sym f));
            oldest = (omega (arith, f), All-map xs (λ x g. ground (arith, f)) h.oldest);
          }
      | inr e ↦
          let f : (both seq p o).first_seen ≡ o.first_seen = rw (a, e) refl in
          record {
            pair = h.pair;
            seen = inr (subst (λ n. Member (n, h.pair) xs) (sym f) h.seen);
            oldest =
                (ground (arith, f), subst (λ n. All (λ (x : Seen). n ≤ x.0) xs) (sym f) h.oldest);
          }
    ]

IsLatest-ever :
    (seq : ℕ) (p : Pair) (xs : List Seen) (o : Observed)
    → IsLatest xs o
    → IsLatest xs (observe_ever seq p o)
unfolding observe_ever
IsLatest-ever seq p xs o h = record {
  seq = h.seq;
  pair = h.pair;
  seen = h.seen;
  newest = h.newest;
  last_seen = h.last_seen;
  last_state = h.last_state;
  local = h.local;
  remote = h.remote;
}

abbrev overwritten : ℕ → Pair → Observed → Observed
overwritten seq p o = record o {
  last_seen = some seq;
  last_state = p.state;
  local = p.local;
  remote = p.remote;
}

newer :
    (seq : ℕ) (p : Pair) (xs : List Seen) (o : Observed)
    → All (λ (x : Seen). x.0 ≤ seq) xs
    → observe_latest seq p o ≡ overwritten seq p o
    → IsLatest ((seq, p) ∷ xs) (observe_latest seq p o)
newer seq p xs o h e = record {
  seq = seq;
  pair = p;
  seen = inl refl;
  newest = (omega arith, h);
  last_seen = rw e refl;
  last_state = rw e refl;
  local = rw e refl;
  remote = rw e refl;
}

IsLatest-step :
    (seq : ℕ) (p : Pair) (xs : List Seen) (o : Observed)
    → IsLatest xs o
    → IsLatest ((seq, p) ∷ xs) (observe_latest seq p o)
IsLatest-step seq p xs o h = elim (Bool-cases (leb h.seq seq)) [
  | inl e ↦
      newer seq p xs o (All-map xs (λ x g. ground arith) h.newest)
        (unfold observe_latest in (rw (h.last_seen, e) refl))
  | inr e ↦
      let same : observe_latest seq p o ≡ o = unfold observe_latest in (rw (h.last_seen, e) refl) in
      rw same (record {
        seq = h.seq;
        pair = h.pair;
        seen = inr h.seen;
        newest = (ground arith, h.newest);
        last_seen = h.last_seen;
        last_state = h.last_state;
        local = h.local;
        remote = h.remote;
      })
]

IsSummary-first :
    (seq : ℕ) (p : Pair) → IsSummary ((seq, p) ∷ []) (both seq p (first_observed seq p))
unfolding observe_ever observe_latest has_state
IsSummary-first seq p = record {
  latest = record {
    seq = seq;
    pair = p;
    seen = inl refl;
    newest = (omega arith, tt);
    last_seen = refl;
    last_state = refl;
    local = refl;
    remote = refl;
  };
  earliest = record { pair = p; seen = inl (ground arith); oldest = (ground arith, tt) };
  ever = record { states = λ s. ground arith; nominated = ground arith; selected = ground arith };
}

pub observe_all-IsSummary :
    (x : Seen) (xs : List Seen)
    → (o : Observed) × (observe_all (x ∷ xs) ≡ some o) × IsSummary (x ∷ xs) o
unfolding observe_all observe
observe_all-IsSummary (seq, p) [] = (_, refl, IsSummary-first seq p)
observe_all-IsSummary (seq, p) (x ∷ xs) =
    let (o, e, h) = observe_all-IsSummary x xs in
    (
      both seq p o,
      ap (λ found. some (observe seq p found)) e,
      record {
        latest = IsLatest-step seq p (x ∷ xs) _ (IsLatest-ever seq p (x ∷ xs) o h.latest);
        earliest = IsEarliest-step seq p (x ∷ xs) o h.earliest;
        ever = IsEver-step seq p (x ∷ xs) o h.ever;
      },
    )
