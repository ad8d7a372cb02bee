-- ===== src/LanProbe/Connections/Current.antt =====
-- What the record of a connection holds in every state the probe reaches.
use dip_distributed_llm_runt.Prelude.{
  ℕ, suc, ◌≤◌, ◌≡◌, refl, ◌∙◌, inl, inr, List, [], ◌∷◌, ◌++◌, Option, none, some, All, arith, leb,
  Bool-cases, if◌then◌else◌, ◌==◌,
}
use dip_distributed_llm_runt.Prelude.Dict
use dip_distributed_llm_runt.LanProbe.Candidates.{Text, option_map}
use dip_distributed_llm_runt.LanProbe.Selection.{Digest}
use dip_distributed_llm_runt.LanProbe.Selection.Ids.{UniquePairs, digest_stats-UniquePairs}
use dip_distributed_llm_runt.LanProbe.Snapshots.{
  Id-discrete, Rec, Entry, Answer, begin, complete, apply_latest, merge_observed, settle,
  settle_answer,
}
use dip_distributed_llm_runt.LanProbe.Snapshots.Newest.{
  entry, Rising, Rising-raise, Rising-append, newest, seq_of, Pending, newest-append,
  complete-Rising, newest-complete, newest-failed,
}
use dip_distributed_llm_runt.LanProbe.Snapshots.Sources.{
  sightings, sightings-append, sightings-new, sightings-old,
}
use dip_distributed_llm_runt.LanProbe.Snapshots.Merging.{
  Sighting, watched, observe_all, get-merge_pairs,
}
use dip_distributed_llm_runt.LanProbe.Snapshots.Order.{Included}
use dip_distributed_llm_runt.LanProbe.Snapshots.Settling.{HasIds}

pub All-snoc :
    {A : Type 0} (P : A → Type 0) (xs : List A) (y : A) → All P xs → P y → All P (xs ++ (y ∷ []))
All-snoc P [] y h p = (p, tt)
All-snoc P (x ∷ xs) y (h, hs) p = (h, All-snoc P xs y hs p)

-- The digests that were merged, latest first: those that the entries hold.
pub record IsHistory (hs : List Sighting) (r : Rec) : Type 0 where
  pub merged : (k : Text) → Dict.get Id-discrete k r.ever_observed ≡ observe_all (watched k hs)
  pub from_entries : Included hs (sightings r.snapshots)
  pub all_entries : Included (sightings r.snapshots) hs
  pub unique : All (λ (h : Sighting). UniquePairs h.1) hs

pub record IsCurrent (top : ℕ) (r : Rec) : Type 0 where
  pub rising : Rising 0 r.snapshots top
  pub idle : All (λ (e : Entry). e.completed_at ≡ none → e.digest ≡ none) r.snapshots
  pub stats_eq : r.stats ≡ option_map (λ (x : ℕ × Digest). x.1) (newest r.snapshots)
  pub latest_eq : r.latest_seq ≡ seq_of (newest r.snapshots)
  pub past : List Sighting
  pub history : IsHistory past r

pub IsCurrent-raise : (top more : ℕ) (r : Rec) → IsCurrent top r → top ≤ more → IsCurrent more r
IsCurrent-raise top more r h le = record {
  rising = Rising-raise 0 r.snapshots top more h.rising le;
  idle = h.idle;
  stats_eq = h.stats_eq;
  latest_eq = h.latest_eq;
  past = h.past;
  history = h.history;
}

-- A new request, which is pending.
pub IsCurrent-begin :
    (top : ℕ) (trigger : Text) (now : ℕ) (r : Rec)
    → IsCurrent top r
    → IsCurrent (suc top) (begin (suc top) trigger now r)
unfolding begin
IsCurrent-begin top trigger now r h =
    let e = entry (suc top) trigger now in
    let newest_eq = newest-append r.snapshots e refl in
    let sightings_eq = sightings-append r.snapshots e refl in
    record {
      rising = Rising-append 0 r.snapshots top e h.rising (omega arith);
      idle = All-snoc _ r.snapshots e h.idle (λ d. refl);
      stats_eq = rw newest_eq h.stats_eq;
      latest_eq = rw newest_eq h.latest_eq;
      past = h.past;
      history = record {
        merged = h.history.merged;
        from_entries = rw sightings_eq h.history.from_entries;
        all_entries = rw sightings_eq h.history.all_entries;
        unique = h.history.unique;
      };
    }

complete-idle :
    (seq now : ℕ) (digest : Option Digest) (error : Option Text) (es : List Entry)
    → All (λ (e : Entry). e.completed_at ≡ none → e.digest ≡ none) es
    → All
        (λ (e : Entry). e.completed_at ≡ none → e.digest ≡ none)
        (complete seq now digest error es)
unfolding complete
complete-idle seq now digest error [] h = tt
complete-idle seq now digest error (e ∷ es) (h, hs) = elim (Bool-cases (e.seq == seq)) [
  | inl q ↦ rw q (λ d. absurd (cc d), hs)
  | inr q ↦ rw q (h, complete-idle seq now digest error es hs)
]

-- A request that fails.
pub IsCurrent-failed :
    (top seq now : ℕ) (error : Option Text) (r : Rec)
    → IsCurrent top r
    → Pending seq r.snapshots
    → IsCurrent top (settle seq now none error r)
unfolding settle
IsCurrent-failed top seq now error r h p =
    let newest_eq = newest-failed 0 r.snapshots top seq now error h.rising p in
    record {
      rising = complete-Rising seq now none error 0 r.snapshots top h.rising;
      idle = complete-idle seq now none error r.snapshots h.idle;
      stats_eq = rw newest_eq h.stats_eq;
      latest_eq = rw newest_eq h.latest_eq;
      past = h.past;
      history = record {
        merged = h.history.merged;
        from_entries = λ x m.
            sightings-old seq now none error 0 r.snapshots top h.rising p x
              (h.history.from_entries x m);
        all_entries =
            λ x m. h.history.all_entries x (sightings-new seq now none error r.snapshots x m);
        unique = h.history.unique;
      };
    }

apply_latest_kept :
    (seq now : ℕ) (d : Digest) (r : Rec)
    → ((apply_latest seq now d r).snapshots ≡ r.snapshots)
      × ((apply_latest seq now d r).ever_observed ≡ r.ever_observed)
unfolding apply_latest
apply_latest_kept seq now d r = ground arith

-- The guard keeps the newest.
apply_latest_newest :
    (seq now : ℕ) (d : Digest) (r : Rec) (before : Option (ℕ × Digest))
    → r.stats ≡ option_map (λ (x : ℕ × Digest). x.1) before
    → r.latest_seq ≡ seq_of before
    → ((apply_latest seq now d r).stats
        ≡ option_map
            (λ (x : ℕ × Digest). x.1)
            (if leb (seq_of before) seq then some (seq, d) else before))
      × ((apply_latest seq now d r).latest_seq
          ≡ seq_of (if leb (seq_of before) seq then some (seq, d) else before))
unfolding apply_latest
apply_latest_newest seq now d r before h k = ground (arith, h, k)

-- A request that gives a digest.
pub IsCurrent-landed :
    (top seq now : ℕ) (d : Digest) (error : Option Text) (r : Rec)
    → IsCurrent top r
    → Pending seq r.snapshots
    → UniquePairs d.pairs
    → IsCurrent top (settle seq now (some d) error r)
unfolding settle merge_observed
IsCurrent-landed top seq now d error r h p u =
    let done = complete seq now (some d) error r.snapshots in
    let written = record r { snapshots = done } in
    let (kept, seen) = apply_latest_kept seq now d written in
    let newest_eq = newest-complete 0 r.snapshots top seq now d error h.rising p in
    let (stats, latest) =
      apply_latest_newest seq now d written (newest r.snapshots) h.stats_eq h.latest_eq in
    record {
      rising = rw kept (complete-Rising seq now (some d) error 0 r.snapshots top h.rising);
      idle = rw kept (complete-idle seq now (some d) error r.snapshots h.idle);
      stats_eq = rw (kept, newest_eq) stats;
      latest_eq = rw (kept, newest_eq) latest;
      past = (seq, d.pairs) ∷ h.past;
      history = record {
        merged = λ k. rw seen (
            get-merge_pairs k seq d.pairs (watched k h.past) r.ever_observed (h.history.merged k)
            ∙ unfold watched in refl);
        from_entries = rw kept (λ x m.
            sightings-old seq now (some d) error 0 r.snapshots top h.rising p x
              (added h.past (sightings r.snapshots) h.history.from_entries x m));
        all_entries = rw kept (λ x m.
            added (sightings r.snapshots) h.past h.history.all_entries x
              (sightings-new seq now (some d) error r.snapshots x m));
        unique = (u, h.history.unique);
      };
    }
  where
    added :
        (xs ys : List Sighting)
        → Included xs ys
        → Included ((seq, d.pairs) ∷ xs) ((seq, d.pairs) ∷ ys)
    added xs ys f x (inl e) = inl e
    added xs ys f x (inr m) = inr (f x m)

pub IsCurrent-answered :
    (top seq now : ℕ) (answer : Answer) (r : Rec)
    → IsCurrent top r
    → Pending seq r.snapshots
    → HasIds (seq, answer)
    → IsCurrent top (settle_answer seq now answer r)
unfolding settle_answer
IsCurrent-answered top seq now (Answer.report stats) r h p ids =
    IsCurrent-landed top seq now _ none r h p
      (digest_stats-UniquePairs r.candidates r.remote_candidates stats ids)
IsCurrent-answered top seq now (Answer.failed error) r h p ids =
    IsCurrent-failed top seq now (some error) r h p
