-- ===== src/LanProbe/Connections/Quiet.antt =====
-- The handlers of a connection that leave its snapshots and what was made of them.
use dip_distributed_llm_runt.Prelude.{
  ℕ, zero, suc, ◌≡◌, refl, List, [], ◌∷◌, some, All, All-map, get_elem?,
}
use dip_distributed_llm_runt.LanProbe.Candidates.{Text, Signaled}
use dip_distributed_llm_runt.LanProbe.Snapshots.{Rec, Note, CandidateError, Direction}
use dip_distributed_llm_runt.LanProbe.Connections.{
  Probe, modify, note, push_candidate, push_remote, push_error, name_peer,
}
use dip_distributed_llm_runt.LanProbe.Connections.Current.{IsCurrent}

abbrev pub AllCurrent : Probe → Type 0
AllCurrent s = All (IsCurrent s.stats_seq) s.connections

pub modify-All :
    (P Q : Rec → Type 0) (i : ℕ) (f : Rec → Rec) (rs : List Rec)
    → ((r : Rec) → P r → Q r)
    → ((r : Rec) → get_elem? rs i ≡ some r → P r → Q (f r))
    → All P rs
    → All Q (modify i f rs)
unfolding modify
modify-All P Q i f [] raise step h = tt
modify-All P Q zero f (r ∷ rs) raise step (h, hs) = (step r refl h, All-map rs raise hs)
modify-All P Q (suc i) f (r ∷ rs) raise step (h, hs) =
    (raise r h, modify-All P Q i f rs raise step hs)

-- A change that leaves the snapshots and what was made of them.
pub record IsQuiet (f : Rec → Rec) : Type 0 where
  pub snapshots : (r : Rec) → (f r).snapshots ≡ r.snapshots
  pub stats : (r : Rec) → (f r).stats ≡ r.stats
  pub latest : (r : Rec) → (f r).latest_seq ≡ r.latest_seq
  pub observed : (r : Rec) → (f r).ever_observed ≡ r.ever_observed

IsQuiet-IsCurrent :
    (f : Rec → Rec) (top : ℕ) (r : Rec) → IsQuiet f → IsCurrent top r → IsCurrent top (f r)
IsQuiet-IsCurrent f top r q h =
    let e = q.snapshots r in
    record {
      rising = rw e h.rising;
      idle = rw e h.idle;
      stats_eq = rw (e, q.stats r) h.stats_eq;
      latest_eq = rw (e, q.latest r) h.latest_eq;
      past = h.past;
      history = record {
        merged = rw (q.observed r) h.history.merged;
        from_entries = rw e h.history.from_entries;
        all_entries = rw e h.history.all_entries;
        unique = h.history.unique;
      };
    }

pub modify-quiet :
    (i : ℕ) (f : Rec → Rec) (s : Probe)
    → IsQuiet f
    → AllCurrent s
    → All (IsCurrent s.stats_seq) (modify i f s.connections)
modify-quiet i f s q h =
    modify-All (IsCurrent s.stats_seq) (IsCurrent s.stats_seq) i f s.connections (λ r g. g)
      (λ r e g. IsQuiet-IsCurrent f s.stats_seq r q g) h

pub note-IsQuiet : (n : Note) → IsQuiet (note n)
unfolding note
note-IsQuiet n = record {
  snapshots = λ r. refl;
  stats = λ r. refl;
  latest = λ r. refl;
  observed = λ r. refl;
}

pub push_candidate-IsQuiet : (c : Signaled) → IsQuiet (push_candidate c)
unfolding push_candidate
push_candidate-IsQuiet c = record {
  snapshots = λ r. refl;
  stats = λ r. refl;
  latest = λ r. refl;
  observed = λ r. refl;
}

pub push_remote-IsQuiet : (c : Signaled) → IsQuiet (push_remote c)
unfolding push_remote
push_remote-IsQuiet c = record {
  snapshots = λ r. refl;
  stats = λ r. refl;
  latest = λ r. refl;
  observed = λ r. refl;
}

pub push_error-IsQuiet : (e : CandidateError) → IsQuiet (push_error e)
unfolding push_error
push_error-IsQuiet e = record {
  snapshots = λ r. refl;
  stats = λ r. refl;
  latest = λ r. refl;
  observed = λ r. refl;
}

pub name_peer-IsQuiet : (id : Text) (direction : Direction) → IsQuiet (name_peer id direction)
unfolding name_peer
name_peer-IsQuiet id direction = record {
  snapshots = λ r. refl;
  stats = λ r. refl;
  latest = λ r. refl;
  observed = λ r. refl;
}
