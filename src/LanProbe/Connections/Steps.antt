-- ===== src/LanProbe/Connections/Steps.antt =====
-- What can happen to the probe, one event at a time.
use dip_distributed_llm_runt.Prelude.{ℕ, ◌≡◌, Option, none, some, get_elem?, Member}
use dip_distributed_llm_runt.LanProbe.Candidates.{Text, Candidate}
use dip_distributed_llm_runt.LanProbe.Snapshots.{Rec, Entry, CandidateError, Direction, Answer}
use dip_distributed_llm_runt.LanProbe.Snapshots.Settling.{HasIds}
use dip_distributed_llm_runt.LanProbe.Connections.{
  Probe, installed, construct, on_ice_candidate, add_ice_candidate, on_candidate_error,
  on_gathering_state, on_ice_state, on_connection_state, snapshot, land, associate,
}

-- The request `seq` of the connection `i` was made and has not settled.
pub record IsOpen (i seq : ℕ) (s : Probe) : Type 0 where
  pub rec : Rec
  pub entry : Entry
  pub here : get_elem? s.connections i ≡ some rec
  pub made : Member entry rec.snapshots
  pub seq_eq : entry.seq ≡ seq
  pub waiting : entry.completed_at ≡ none

pub data Step : Probe → Probe → Type 0 where
  constructs : (now : ℕ) (config : Text) {s : Probe} → Step s (construct now config s)
  ice_candidate :
      (now i : ℕ) (c : Option Candidate) {s : Probe} → Step s (on_ice_candidate now i c s)
  remote_candidate :
      (now i : ℕ) (c : Option Candidate) {s : Probe} → Step s (add_ice_candidate now i c s)
  candidate_error : (i : ℕ) (e : CandidateError) {s : Probe} → Step s (on_candidate_error i e s)
  gathering : (now i : ℕ) (state : Text) {s : Probe} → Step s (on_gathering_state now i state s)
  ice_changes :
      (now i : ℕ) (state : Text) (thrown : Option Text) {s : Probe}
      → Step s (on_ice_state now i state thrown s)
  connection_changes :
      (now i : ℕ) (state : Text) (thrown : Option Text) {s : Probe}
      → Step s (on_connection_state now i state thrown s)
  asks :
      (i : ℕ) (trigger : Text) (now : ℕ) (thrown : Option Text) {s : Probe}
      → Step s (snapshot i trigger now thrown s)
  lands :
      (i seq now : ℕ) (answer : Answer) {s : Probe}
      → IsOpen i seq s
      → HasIds (seq, answer)
      → Step s (land i seq now answer s)
  associates :
      (pc : ℕ → Option (Option ℕ)) (peer : Option Text) (direction : Direction) {s t : Probe}
      → associate pc peer direction s ≡ some t
      → Step s t

pub data Reach : Probe → Type 0 where
  start : Reach installed
  after : {s t : Probe} → Reach s → Step s t → Reach t
