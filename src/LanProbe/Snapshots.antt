-- ===== src/LanProbe/Snapshots.antt =====
-- The record of a connection in scripts/lan-probe.js, `snapshot`, its `settle`, and mergeObserved.
--
-- A stats request is `begin` when it is made and `settle` when its promise settles; between the two
-- anything else may happen, so requests settle in any order. `-Infinity` in lastSeenSeq is none.
pub mod Merging
pub mod Newest
pub mod Sources
pub mod Sightings
pub mod Facts
pub mod Summary
pub mod Members
pub mod Order
pub mod Settling
use dip_distributed_llm_runt.Prelude.{
  ℕ, Bool, true, false, ◌||◌, if◌then◌else◌, List, [], ◌∷◌, ◌++◌, Option, none, some, leb, ltb,
  ◌==◌, ℕ_discrete,
}
use dip_distributed_llm_runt.Prelude.Dict
use dip_distributed_llm_runt.Prelude.Dict.{Dict}
use dip_distributed_llm_runt.LanProbe.Candidates.{Text, Signaled}
use dip_distributed_llm_runt.LanProbe.Matching.{Stat, Described, same_text?}
use dip_distributed_llm_runt.LanProbe.Selection.{Pair, Digest, digest_stats}

unfoldable pub Id-discrete : Discrete Text
Id-discrete = hlevel ℕ_discrete

pub record Observed : Type 0 where
  pub id : Text
  pub first_seen : ℕ
  pub last_seen : Option ℕ
  pub states_seen : List (Option Text)
  pub last_state : Option Text
  pub ever_nominated : Bool
  pub ever_selected : Bool
  pub local : Option Described
  pub remote : Option Described

pub record Entry : Type 0 where
  pub seq : ℕ
  pub trigger : Text
  pub requested_at : ℕ
  pub completed_at : Option ℕ
  pub digest : Option Digest
  pub error : Option Text

pub data Direction : Type 0 where
  outgoing incoming : Direction

pub data Note : Type 0 where
  gathering_complete : ℕ → Note
  gathering_state ice_state connection_state : ℕ → Text → Note

-- An `icecandidateerror` event, with the time it came at.
pub record CandidateError : Type 0 where
  pub at_ms : ℕ
  pub error_code : ℕ
  pub error_text : Text
  pub url : Text
  pub address : Option Text
  pub port : Option ℕ

pub record Rec : Type 0 where
  pub connection_id : ℕ
  pub created_at : ℕ
  pub peer_id : Option Text
  pub direction : Option Direction
  pub config : Text
  pub candidates : List Signaled
  pub remote_candidates : List Signaled
  pub candidate_errors : List CandidateError
  pub transitions : List Note
  pub stats : Option Digest
  pub stats_at : Option ℕ
  pub latest_seq : ℕ
  pub snapshots : List Entry
  pub ever_observed : Dict Text Observed

-- `statesSeen.indexOf(state) !== -1`
unfoldable pub has_state : Option Text → List (Option Text) → Bool
has_state state [] = false
has_state state (s ∷ ss) = same_text? s state || has_state state ss

abbrev pub first_observed : ℕ → Pair → Observed
first_observed seq pair = record {
  id = pair.id;
  first_seen = seq;
  last_seen = none;
  states_seen = [];
  last_state = none;
  ever_nominated = false;
  ever_selected = false;
  local = none;
  remote = none;
}

-- The facts that do not depend on the order.
unfoldable pub observe_ever : ℕ → Pair → Observed → Observed
observe_ever seq pair prev = record prev {
  first_seen = if ltb seq prev.first_seen then seq else prev.first_seen;
  states_seen =
      if has_state pair.state prev.states_seen
      then prev.states_seen
      else prev.states_seen ++ (pair.state ∷ []);
  ever_nominated = prev.ever_nominated || pair.nominated;
  ever_selected = prev.ever_selected || pair.selected;
}

-- `seq >= prev.lastSeenSeq`
abbrev pub is_latest : ℕ → Option ℕ → Bool
is_latest seq none = true
is_latest seq (some last) = leb last seq

unfoldable pub observe_latest : ℕ → Pair → Observed → Observed
observe_latest seq pair prev =
    if is_latest seq prev.last_seen
    then record prev {
      last_seen = some seq;
      last_state = pair.state;
      local = pair.local;
      remote = pair.remote;
    }
    else prev

-- The record of a pair after one observation of it.
unfoldable pub observe : ℕ → Pair → Option Observed → Observed
observe seq pair none = observe_latest seq pair (observe_ever seq pair (first_observed seq pair))
observe seq pair (some prev) = observe_latest seq pair (observe_ever seq pair prev)

unfoldable pub merge_pairs : ℕ → List Pair → Dict Text Observed → Dict Text Observed
merge_pairs seq [] seen = seen
merge_pairs seq (pair ∷ pairs) seen =
    merge_pairs seq pairs
      (Dict.set Id-discrete pair.id (observe seq pair (Dict.get Id-discrete pair.id seen)) seen)

unfoldable pub merge_observed : ℕ → Digest → Rec → Rec
merge_observed seq digest r = record r {
  ever_observed = merge_pairs seq digest.pairs r.ever_observed;
}

-- The request: an entry that is still pending.
unfoldable pub begin : ℕ → Text → ℕ → Rec → Rec
begin seq trigger now r = record r {
  snapshots =
      r.snapshots
      ++ (record {
        seq = seq;
        trigger = trigger;
        requested_at = now;
        completed_at = none;
        digest = none;
        error = none;
      }
          ∷ []);
}

-- The writes to the entry of the request.
unfoldable pub complete : ℕ → ℕ → Option Digest → Option Text → List Entry → List Entry
complete seq now digest error [] = []
complete seq now digest error (e ∷ es) =
    if e.seq == seq
    then record e { completed_at = some now; digest = digest; error = error } ∷ es
    else e ∷ complete seq now digest error es

unfoldable pub apply_latest : ℕ → ℕ → Digest → Rec → Rec
apply_latest seq now digest r =
    if leb r.latest_seq seq
    then record r { latest_seq = seq; stats = some digest; stats_at = some now }
    else r

unfoldable pub settle : ℕ → ℕ → Option Digest → Option Text → Rec → Rec
settle seq now digest error r =
    let written = record r { snapshots = complete seq now digest error r.snapshots } in
    elim digest [ none ↦ written | some d ↦ merge_observed seq d (apply_latest seq now d written) ]

-- What getStats did: it threw or its promise rejected, or it gave a report.
pub data Answer : Type 0 where
  report : List Stat → Answer
  failed : Text → Answer

unfoldable pub settle_answer : ℕ → ℕ → Answer → Rec → Rec
settle_answer seq now (Answer.report stats) r =
    settle seq now (some (digest_stats r.candidates r.remote_candidates stats)) none r
settle_answer seq now (failed error) r = settle seq now none (some error) r
