-- ===== src/PeerManager/Report.antt =====
-- What harness/runtime-only/harness-peer-manager.js reports of its fds: fdStats.
pub mod Sorting
pub mod Rows
mod Tests
use dip_distributed_llm_runt.Prelude.{
  ℕ, Bool, true, false, if◌then◌else◌, ◌||◌, List, [], ◌∷◌, ◌++◌, Option, none, some, map, leb,
  ◌==◌,
}
use dip_distributed_llm_runt.Prelude.Dict
use dip_distributed_llm_runt.PeerManager.{Manager, count, conn_of}

pub data State : Type 0 where
  released closed live : State

pub record Row : Type 0 where
  pub fd : ℕ
  pub connections : ℕ
  pub accepted : ℕ
  pub registrations : ℕ
  pub runtime_closes : ℕ
  pub state : State

-- `new Set`: a number that comes again is dropped.
unfoldable pub has_fd : ℕ → List ℕ → Bool
has_fd fd [] = false
has_fd fd (k ∷ ks) = k == fd || has_fd fd ks

unfoldable pub add_fds : List ℕ → List ℕ → List ℕ
add_fds [] set = set
add_fds (fd ∷ fds) set = add_fds fds (if has_fd fd set then set else set ++ (fd ∷ []))

unfoldable pub counted_fds : Manager → List ℕ
counted_fds s = add_fds (Dict.keys s.runtime_close_counts) (
    add_fds (Dict.keys s.accepted_counts)
      (add_fds (Dict.keys s.registration_counts) (add_fds (Dict.keys s.connection_counts) [])))

unfoldable pub insert : ℕ → List ℕ → List ℕ
insert fd [] = fd ∷ []
insert fd (k ∷ ks) = if leb fd k then fd ∷ k ∷ ks else k ∷ insert fd ks

-- `sort((a, b) => a - b)`, of which the result does not depend on the algorithm.
unfoldable pub sort : List ℕ → List ℕ
sort [] = []
sort (fd ∷ fds) = insert fd (sort fds)

unfoldable pub state_of : Option ℕ → Manager → State
state_of none s = released
state_of (some r) s = if (s.objects r).closed then closed else live

unfoldable pub row : Manager → ℕ → Row
row s fd = record {
  fd = fd;
  connections = count s.connection_counts fd;
  accepted = count s.accepted_counts fd;
  registrations = count s.registration_counts fd;
  runtime_closes = count s.runtime_close_counts fd;
  state = state_of (conn_of fd s) s;
}

unfoldable pub fd_stats : Manager → List Row
fd_stats s = map (row s) (sort (counted_fds s))
