-- ===== src/LanProbe/Connections.antt =====
-- The wrapped RTCPeerConnection of scripts/lan-probe.js: the constructor Probed, its event handlers,
-- `snapshot` with its sequence number, and `associate`.
--
-- A connection is named by its place in `connections`; `byPc` finds that place. The handlers take the
-- time that `ms()` gives. Whether getStats throws at once is the argument `thrown` of a snapshot; a
-- promise that settles later is a step of its own.
pub mod Steps
pub mod Current
pub mod Retry
pub mod Quiet
pub mod Reach
use dip_distributed_llm_runt.Prelude.{
  ℕ, zero, suc, ◌+◌, Bool, true, false, ◌||◌, if◌then◌else◌, List, [], ◌∷◌, ◌++◌, Option, none,
  some, leb,
}
use dip_distributed_llm_runt.Prelude.Text.{codes}
use dip_distributed_llm_runt.LanProbe.Candidates.{
  Text, Candidate, Signaled, non_empty, describe_signaled, same_text,
}
use dip_distributed_llm_runt.LanProbe.Snapshots.{
  Rec, Entry, Note, CandidateError, Direction, Answer, gathering_complete, gathering_state,
  ice_state, connection_state, has_state, begin, settle, settle_answer,
}

pub record Probe : Type 0 where
  pub constructed : ℕ
  pub ice_configs : List Text
  pub candidate_types : List (Option Text)
  pub stats_seq : ℕ
  pub connections : List Rec

unfoldable pub installed : Probe
installed = record {
  constructed = 0;
  ice_configs = [];
  candidate_types = [];
  stats_seq = 0;
  connections = [];
}

unfoldable pub fresh_rec : ℕ → ℕ → Text → Rec
fresh_rec id now config = record {
  connection_id = id;
  created_at = now;
  peer_id = none;
  direction = none;
  config = config;
  candidates = [];
  remote_candidates = [];
  candidate_errors = [];
  transitions = [];
  stats = none;
  stats_at = none;
  latest_seq = 0;
  snapshots = [];
  ever_observed = [];
}

-- `new RTCPeerConnection(config)`, of which `config` is the clone.
unfoldable pub construct : ℕ → Text → Probe → Probe
construct now config s = record s {
  constructed = suc s.constructed;
  ice_configs = s.ice_configs ++ (config ∷ []);
  connections = s.connections ++ (fresh_rec (suc s.constructed) now config ∷ []);
}

unfoldable pub modify : ℕ → (Rec → Rec) → List Rec → List Rec
modify i f [] = []
modify zero f (r ∷ rs) = f r ∷ rs
modify (suc i) f (r ∷ rs) = r ∷ modify i f rs

abbrev pub on_connection : ℕ → (Rec → Rec) → Probe → Probe
on_connection i f s = record s { connections = modify i f s.connections }

-- `candidateTypes.add`
unfoldable pub add_type : Option Text → List (Option Text) → List (Option Text)
add_type type types = if has_state type types then types else types ++ (type ∷ [])

unfoldable pub note : Note → Rec → Rec
note n r = record r { transitions = r.transitions ++ (n ∷ []) }

unfoldable pub push_candidate : Signaled → Rec → Rec
push_candidate c r = record r { candidates = r.candidates ++ (c ∷ []) }

unfoldable pub push_remote : Signaled → Rec → Rec
push_remote c r = record r { remote_candidates = r.remote_candidates ++ (c ∷ []) }

unfoldable pub push_error : CandidateError → Rec → Rec
push_error e r = record r { candidate_errors = r.candidate_errors ++ (e ∷ []) }

unfoldable pub on_ice_candidate : ℕ → ℕ → Option Candidate → Probe → Probe
on_ice_candidate now i none s =
    let s' = record s {
      candidate_types = add_type (some (codes "(gathering-complete)")) s.candidate_types;
    } in
    on_connection i (note (gathering_complete now)) s'
on_ice_candidate now i (some c) s =
    let described = describe_signaled now c in
    let s' = record s { candidate_types = add_type described.type s.candidate_types } in
    on_connection i (push_candidate described) s'

-- `addIceCandidate(candidate)`, before the call of the original.
unfoldable pub add_ice_candidate : ℕ → ℕ → Option Candidate → Probe → Probe
add_ice_candidate now i none s = s
add_ice_candidate now i (some c) s = elim c.line [
  | [] ↦ s
  | x ∷ xs ↦ on_connection i (push_remote (describe_signaled now c)) s
]

unfoldable pub on_candidate_error : ℕ → CandidateError → Probe → Probe
on_candidate_error i e s = on_connection i (push_error e) s

unfoldable pub on_gathering_state : ℕ → ℕ → Text → Probe → Probe
on_gathering_state now i state s = on_connection i (note (gathering_state now state)) s

-- What `snapshot` does to its connection before it returns.
unfoldable pub start_snapshot : ℕ → Text → ℕ → Option Text → Rec → Rec
start_snapshot seq trigger now none r = begin seq trigger now r
start_snapshot seq trigger now (some error) r =
    settle seq now none (some error) (begin seq trigger now r)

unfoldable pub snapshot : ℕ → Text → ℕ → Option Text → Probe → Probe
snapshot i trigger now thrown s =
    on_connection i (start_snapshot (suc s.stats_seq) trigger now thrown)
      (record s { stats_seq = suc s.stats_seq })

-- The promise of getStats settles.
unfoldable pub land : ℕ → ℕ → ℕ → Answer → Probe → Probe
land i seq now answer s = on_connection i (settle_answer seq now answer) s

abbrev pub snapshot_states : List (Option Text)
snapshot_states =
    some (codes "checking")
    ∷ some (codes "connecting")
    ∷ some (codes "connected")
    ∷ some (codes "completed")
    ∷ some (codes "failed")
    ∷ some (codes "disconnected")
    ∷ []

unfoldable pub maybe_snapshot : ℕ → Text → Text → ℕ → Option Text → Probe → Probe
maybe_snapshot i kind state now thrown s =
    if has_state (some state) snapshot_states
    then snapshot i (kind ++ (codes ":" ++ state)) now thrown s
    else s

unfoldable pub on_ice_state : ℕ → ℕ → Text → Option Text → Probe → Probe
on_ice_state now i state thrown s =
    maybe_snapshot i (codes "iceConnectionState") state now thrown
      (on_connection i (note (ice_state now state)) s)

unfoldable pub on_connection_state : ℕ → ℕ → Text → Option Text → Probe → Probe
on_connection_state now i state thrown s =
    maybe_snapshot i (codes "connectionState") state now thrown
      (on_connection i (note (connection_state now state)) s)

unfoldable pub name_peer : Text → Direction → Rec → Rec
name_peer peer direction r = record r { peer_id = some peer; direction = some direction }

-- What `associate` comes to: it returned with nothing done, or it found the connection of the peer.
pub data Association : Type 0 where
  nothing : Association
  found : ℕ → Association

-- `pc n` is `conn.peerConnection` at the n-th attempt: none while there is none, and the place of its
-- connection when the probe wrapped it. `none` as a result: the fuel ran out.
unfoldable pub retry : (ℕ → Option (Option ℕ)) → ℕ → ℕ → Option Association
retry pc zero attempt = none
retry pc (suc fuel) attempt =
    let again = retry pc fuel (suc attempt) in
    elim (pc attempt) [
      | some none ↦ some nothing
      | some (some i) ↦ some (found i)
      | none ↦ if leb 10 attempt then some nothing else again
    ]

abbrev pub attempts : ℕ
attempts = 11

-- `associate(conn, peerId, direction, 0)`, run to its end.
unfoldable pub associate : (ℕ → Option (Option ℕ)) → Option Text → Direction → Probe → Option Probe
associate pc peer direction s = elim (non_empty peer) [
  | none ↦ some s
  | some id ↦ elim (retry pc attempts 0) [
    | none ↦ none
    | some nothing ↦ some s
    | some (found i) ↦ some (on_connection i (name_peer id direction) s)
  ]
]
