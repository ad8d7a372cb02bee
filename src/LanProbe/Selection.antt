-- ===== src/LanProbe/Selection.antt =====
-- digestStats: the candidate pairs of a report and the selected one.
pub mod Ids
pub mod Named
pub mod Marks
use dip_distributed_llm_runt.Prelude.{
  Bool, true, false, ◌&&◌, if◌then◌else◌, List, [], ◌∷◌, Option, none, some,
}
use dip_distributed_llm_runt.Prelude.Text.{codes}
use dip_distributed_llm_runt.LanProbe.Candidates.{Text, Signaled, non_empty, same_text}
use dip_distributed_llm_runt.LanProbe.Matching.{
  Stat, Described, same_text?, describe_stat_candidate,
}

pub record Pair : Type 0 where
  pub id : Text
  pub state : Option Text
  pub nominated : Bool
  pub selected : Bool
  pub local : Option Described
  pub remote : Option Described

pub data SelectedVia : Type 0 where
  transport fallback : SelectedVia

pub record Digest : Type 0 where
  pub pairs : List Pair
  pub selected : Option Pair
  pub selected_via : Option SelectedVia

-- `byId.get(id)`: the last entry with that id, since a Map keeps what was written last.
unfoldable pub by_id : List Stat → Option Text → Option Stat
by_id [] id = none
by_id (s ∷ ss) id = elim (by_id ss id) [
  | none ↦ if same_text? (some s.id) id then some s else none
  | some found ↦ some found
]

-- The last transport that names a selected pair.
unfoldable pub selected_id : Option Text → List Stat → Option Text
selected_id found [] = found
selected_id found (s ∷ ss) = elim (non_empty s.selected_pair_id) [
  | none ↦ selected_id found ss
  | some id ↦ selected_id (if same_text s.type (codes "transport") then some id else found) ss
]

abbrev pub is_selected : Option Text → Text → Bool
is_selected none id = false
is_selected (some chosen) id = same_text id chosen

module _ (ours theirs : List Signaled) where
  unfoldable pub pair_of : Option Text → List Stat → Stat → Pair
  pair_of chosen report s = record {
    id = s.id;
    state = non_empty s.state;
    nominated = s.nominated;
    selected = is_selected chosen s.id;
    local = describe_stat_candidate ours theirs (by_id report s.local_id);
    remote = describe_stat_candidate ours theirs (by_id report s.remote_id);
  }

  -- `report` is the whole report, of which the last argument is what is left to visit.
  unfoldable pub pairs_of : Option Text → List Stat → List Stat → List Pair
  pairs_of chosen report [] = []
  pairs_of chosen report (s ∷ ss) =
      if same_text s.type (codes "candidate-pair")
      then pair_of chosen report s ∷ pairs_of chosen report ss
      else pairs_of chosen report ss

abbrev pub find : (Pair → Bool) → List Pair → Option Pair
find p [] = none
find p (x ∷ xs) = if p x then some x else find p xs

abbrev pub is_usable : Pair → Bool
is_usable p = same_text? p.state (some (codes "succeeded")) && p.nominated

abbrev pub mark : Pair → Pair
mark p = record {
  id = p.id;
  state = p.state;
  nominated = p.nominated;
  selected = true;
  local = p.local;
  remote = p.remote;
}

-- `selected.selected = true` on the first usable pair, which the list shares.
unfoldable pub mark_first : List Pair → List Pair
mark_first [] = []
mark_first (p ∷ ps) = if is_usable p then mark p ∷ ps else p ∷ mark_first ps

unfoldable pub select : List Pair → Digest
select pairs = elim (find (λ (p : Pair). p.selected) pairs) [
  | some p ↦ record { pairs = pairs; selected = some p; selected_via = some SelectedVia.transport }
  | none ↦ elim (find is_usable pairs) [
    | none ↦ record { pairs = pairs; selected = none; selected_via = none }
    | some p ↦ record {
      pairs = mark_first pairs;
      selected = some (mark p);
      selected_via = some SelectedVia.fallback;
    }
  ]
]

unfoldable pub digest_stats : List Signaled → List Signaled → List Stat → Digest
digest_stats ours theirs report =
    select (pairs_of ours theirs (selected_id none report) report report)
