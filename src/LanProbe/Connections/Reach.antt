-- ===== src/LanProbe/Connections/Reach.antt =====
-- The states that the probe reaches: what it reports of a connection against the list of its requests.
use dip_distributed_llm_runt.Prelude.{
  ℕ, suc, ◌≡◌, refl, sym, ◌⊎◌, inl, inr, List, [], ◌∷◌, ◌++◌, Option, none, some, subst, Member,
  All-Member, arith, if-cases, Option-cases,
}
use dip_distributed_llm_runt.Prelude.Text.{codes}
use dip_distributed_llm_runt.Prelude.Dict
use dip_distributed_llm_runt.LanProbe.Candidates.{Text, Candidate, option_map, non_empty}
use dip_distributed_llm_runt.LanProbe.Selection.{Digest}
use dip_distributed_llm_runt.LanProbe.Snapshots.{
  Id-discrete, Rec, Entry, Answer, Direction, begin, has_state,
}
use dip_distributed_llm_runt.LanProbe.Snapshots.Facts.{facts}
use dip_distributed_llm_runt.LanProbe.Snapshots.Newest.{entry, newest, seq_of}
use dip_distributed_llm_runt.LanProbe.Snapshots.Order.{watched_same}
use dip_distributed_llm_runt.LanProbe.Snapshots.Settling.{HasIds}
use dip_distributed_llm_runt.LanProbe.Snapshots.Merging.{observe_all, watched}
use dip_distributed_llm_runt.LanProbe.Snapshots.Sources.{sightings, sightings-OneEach}
use dip_distributed_llm_runt.LanProbe.Snapshots.Sightings.{
  replay, replayed, get-replay, replayed-Included,
}
use dip_distributed_llm_runt.LanProbe.Connections.{
  Probe, installed, fresh_rec, construct, modify, on_ice_candidate, add_ice_candidate,
  on_candidate_error, on_gathering_state, on_ice_state, on_connection_state, start_snapshot,
  snapshot, snapshot_states, maybe_snapshot, land, name_peer, retry, attempts, associate, nothing,
  found,
}
use dip_distributed_llm_runt.LanProbe.Connections.Steps.{IsOpen, Step, Reach}
use dip_distributed_llm_runt.LanProbe.Connections.Current.{
  IsCurrent, IsCurrent-raise, IsCurrent-begin, IsCurrent-failed, IsCurrent-answered, All-snoc,
}
use dip_distributed_llm_runt.LanProbe.Connections.Quiet.{
  AllCurrent, modify-All, modify-quiet, note-IsQuiet, push_candidate-IsQuiet, push_remote-IsQuiet,
  push_error-IsQuiet, name_peer-IsQuiet,
}

fresh_rec-IsCurrent : (top id now : ℕ) (config : Text) → IsCurrent top (fresh_rec id now config)
unfolding fresh_rec
fresh_rec-IsCurrent top id now config = record {
  rising = omega arith;
  idle = tt;
  stats_eq = unfold newest in refl;
  latest_eq = unfold newest in refl;
  past = [];
  history = record {
    merged = λ k. unfold Dict.get observe_all watched in refl;
    from_entries = unfold sightings in (λ x m. m);
    all_entries = unfold sightings in (λ x m. m);
    unique = tt;
  };
}

start_snapshot-IsCurrent :
    (top : ℕ) (trigger : Text) (now : ℕ) (thrown : Option Text) (r : Rec)
    → IsCurrent top r
    → IsCurrent (suc top) (start_snapshot (suc top) trigger now thrown r)
unfolding start_snapshot
start_snapshot-IsCurrent top trigger now none r h = IsCurrent-begin top trigger now r h
start_snapshot-IsCurrent top trigger now (some error) r h =
    IsCurrent-failed (suc top) (suc top) now (some error) _ (IsCurrent-begin top trigger now r h)
      (entry (suc top) trigger now, unfold begin in (last_Member r.snapshots _), refl, refl)
  where
    last_Member : (es : List Entry) (e : Entry) → Member e (es ++ (e ∷ []))
    last_Member [] e = inl refl
    last_Member (x ∷ es) e = inr (last_Member es e)

snapshot-AllCurrent :
    (i : ℕ) (trigger : Text) (now : ℕ) (thrown : Option Text) (s : Probe)
    → AllCurrent s
    → AllCurrent (snapshot i trigger now thrown s)
unfolding snapshot
snapshot-AllCurrent i trigger now thrown s h =
    modify-All (IsCurrent s.stats_seq) (IsCurrent (suc s.stats_seq)) i _ s.connections
      (λ r g. IsCurrent-raise s.stats_seq (suc s.stats_seq) r g (omega arith))
      (λ r e g. start_snapshot-IsCurrent s.stats_seq trigger now thrown r g) h

maybe_snapshot-AllCurrent :
    (i : ℕ) (kind state : Text) (now : ℕ) (thrown : Option Text) (s : Probe)
    → AllCurrent s
    → AllCurrent (maybe_snapshot i kind state now thrown s)
unfolding maybe_snapshot
maybe_snapshot-AllCurrent i kind state now thrown s h =
    if-cases AllCurrent (has_state (some state) snapshot_states)
      (λ e. snapshot-AllCurrent i (kind ++ (codes ":" ++ state)) now thrown s h) (λ e. h)

-- `associate` returned with nothing done, or named the peer of one connection.
associate-cases :
    (pc : ℕ → Option (Option ℕ)) (peer : Option Text) (direction : Direction) (s t : Probe)
    → associate pc peer direction s ≡ some t
    → (t ≡ s)
      ⊎ ((i : ℕ) × (id : Text) × (t
            ≡ record s { connections = modify i (name_peer id direction) s.connections }))
unfolding associate
associate-cases pc peer direction s t e = elim (Option-cases (non_empty peer)) [
  | inl f ↦ inl (ground (arith, f))
  | inr (id, f) ↦ elim (Option-cases (retry pc attempts 0)) [
    | inl g ↦ absurd (ground (arith, f, g))
    | inr (nothing, g) ↦ inl (ground (arith, f, g))
    | inr (found i, g) ↦ inr (i, id, ground (arith, f, g))
  ]
]

associate-AllCurrent :
    (pc : ℕ → Option (Option ℕ)) (peer : Option Text) (direction : Direction) (s t : Probe)
    → AllCurrent s
    → associate pc peer direction s ≡ some t
    → AllCurrent t
associate-AllCurrent pc peer direction s t h e = elim (associate-cases pc peer direction s t e) [
  | inl f ↦ rw f h
  | inr (i, id, f) ↦ rw f (modify-quiet i _ s (name_peer-IsQuiet id direction) h)
]

remote-AllCurrent :
    (now i : ℕ) (c : Candidate) (line : Text) (s : Probe)
    → c.line ≡ line
    → AllCurrent s
    → AllCurrent (add_ice_candidate now i (some c) s)
unfolding add_ice_candidate
remote-AllCurrent now i c [] s e h = rw e h
remote-AllCurrent now i c (x ∷ xs) s e h = rw e (modify-quiet i _ s (push_remote-IsQuiet _) h)

land-AllCurrent :
    (i seq now : ℕ) (answer : Answer) (s : Probe)
    → IsOpen i seq s
    → HasIds (seq, answer)
    → AllCurrent s
    → AllCurrent (land i seq now answer s)
unfolding land
land-AllCurrent i seq now answer s o ids h =
    modify-All (IsCurrent s.stats_seq) (IsCurrent s.stats_seq) i _ s.connections (λ r g. g)
      (λ r e g.
        let same : o.rec ≡ r = cc (e, o.here) in
        let made : Member o.entry r.snapshots =
          subst (λ (x : Rec). Member o.entry x.snapshots) same o.made in
        IsCurrent-answered s.stats_seq seq now answer r g
          (o.entry, made, o.seq_eq, All-Member _ o.entry r.snapshots g.idle made o.waiting) ids)
      h

Step-AllCurrent : {s t : Probe} → Step s t → AllCurrent s → AllCurrent t
unfolding construct on_ice_candidate on_candidate_error on_gathering_state on_ice_state
    on_connection_state
Step-AllCurrent (Step.constructs now config {s = s}) h =
    All-snoc (IsCurrent s.stats_seq) s.connections _ h
      (fresh_rec-IsCurrent s.stats_seq _ now config)
Step-AllCurrent (Step.ice_candidate now i none {s = s}) h = modify-quiet i _ s (note-IsQuiet _) h
Step-AllCurrent (Step.ice_candidate now i (some c) {s = s}) h =
    modify-quiet i _ s (push_candidate-IsQuiet _) h
Step-AllCurrent (Step.remote_candidate now i none {s = s}) h = unfold add_ice_candidate in h
Step-AllCurrent (Step.remote_candidate now i (some c) {s = s}) h =
    remote-AllCurrent now i c c.line s refl h
Step-AllCurrent (Step.candidate_error i e {s = s}) h = modify-quiet i _ s (push_error-IsQuiet e) h
Step-AllCurrent (Step.gathering now i state {s = s}) h = modify-quiet i _ s (note-IsQuiet _) h
Step-AllCurrent (Step.ice_changes now i state thrown {s = s}) h =
    maybe_snapshot-AllCurrent i _ state now thrown _ (modify-quiet i _ s (note-IsQuiet _) h)
Step-AllCurrent (Step.connection_changes now i state thrown {s = s}) h =
    maybe_snapshot-AllCurrent i _ state now thrown _ (modify-quiet i _ s (note-IsQuiet _) h)
Step-AllCurrent (Step.asks i trigger now thrown {s = s}) h =
    snapshot-AllCurrent i trigger now thrown s h
Step-AllCurrent (Step.lands i seq now answer {s = s} o ids) h =
    land-AllCurrent i seq now answer s o ids h
Step-AllCurrent (Step.associates pc peer direction {s = s} {t = t} e) h =
    associate-AllCurrent pc peer direction s t h e

Reach-AllCurrent : {s : Probe} → Reach s → AllCurrent s
Reach-AllCurrent Reach.start = unfold installed in tt
Reach-AllCurrent (Reach.after h step) = Step-AllCurrent step (Reach-AllCurrent h)

-- In every state the probe reaches, with requests of several connections open at once and settling in
-- any order, the `stats` of a connection are the digest of its latest request that gave one, and
-- `latestStatsSeq` is that request: a later settlement of an older request never takes their place.
pub Reach-latest :
    {s : Probe} (r : Rec)
    → Reach s
    → Member r s.connections
    → (r.stats ≡ option_map (λ (x : ℕ × Digest). x.1) (newest r.snapshots))
      × (r.latest_seq ≡ seq_of (newest r.snapshots))
Reach-latest {s = s} r h m =
    let current = All-Member (IsCurrent s.stats_seq) r s.connections (Reach-AllCurrent h) m in
    (current.stats_eq, current.latest_eq)

-- In every state the probe reaches, the facts that `pairsEverObserved` gives of a pair are those that
-- the digests of the connection would have given had they been merged in the order of their requests.
pub Reach-replay :
    {s : Probe} (r : Rec) (k : Text)
    → Reach s
    → Member r s.connections
    → option_map facts (Dict.get Id-discrete k r.ever_observed)
      ≡ option_map facts (Dict.get Id-discrete k (replay r.snapshots []))
Reach-replay {s = s} r k h m =
    let current = All-Member (IsCurrent s.stats_seq) r s.connections (Reach-AllCurrent h) m in
    let (from, to) = replayed-Included r.snapshots in
    let again = get-replay k r.snapshots [] [] (unfold Dict.get observe_all watched in refl) in
    let past = current.history in
    rw (past.merged k, again)
      (sym (
        watched_same k (replayed r.snapshots []) current.past (λ x n. past.all_entries x (from x n))
          (λ x n. to x (past.from_entries x n))
          (λ n p q a b.
            sightings-OneEach 0 r.snapshots s.stats_seq current.rising n p q
              (past.from_entries (n, p) a) (past.from_entries (n, q) b))
          past.unique))
