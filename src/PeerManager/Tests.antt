-- ===== src/PeerManager/Tests.antt =====
-- Runs of the peer manager, and its theorems at concrete inputs.
use dip_distributed_llm_runt.Prelude.{
  ℕ, ◌<◌, ◌<◌, ◌≡◌, refl, ◌++◌, List, [], ◌∷◌, none, some, arith, ℕ_discrete, text_discrete,
}
use dip_distributed_llm_runt.Prelude.Dict
use dip_distributed_llm_runt.PeerManager.{
  Manager, Message, Kind, create, conn_of, remote_conn, new_fd, scan_fd,
}
use dip_distributed_llm_runt.PeerManager.Api.{
  Op, accepts, receives, closes_fd, closes, hears, apply, run, on_message, dispatch, handle_connect,
  create_conn, open_conn, drop_previous, pair_up,
}
use dip_distributed_llm_runt.PeerManager.Fds.{new_fd_finds}
use dip_distributed_llm_runt.PeerManager.Links.{core, IsLinked}
use dip_distributed_llm_runt.PeerManager.Links.Steps.{run-create-IsLinked}
use dip_distributed_llm_runt.PeerManager.Stream.{
  Carries, Traffic, arrives, reads, arrived, carry, stream, carry-stream,
}

abbrev hello : Message
hello = record { sender = "b"; to = "a"; kind = Kind.connect }

-- Node a with two fd numbers; b has connected and nobody has accepted.
abbrev called : Manager
called = run (hears hello ∷ []) (create "a" (some 2))

called_conn : conn_of 0 called ≡ some 0
unfolding create run apply on_message dispatch handle_connect new_fd scan_fd create_conn open_conn
    drop_previous pair_up Dict.get Dict.set ℕ_discrete text_discrete
called_conn = refl

called_remote : remote_conn "b" called ≡ some 0
unfolding create run apply on_message dispatch handle_connect new_fd scan_fd create_conn open_conn
    drop_previous pair_up Dict.get Dict.set ℕ_discrete text_discrete
called_remote = refl

abbrev session : List Op
session = hears hello ∷ accepts 7 ∷ receives 0 4 8 ∷ closes ∷ closes_fd 0 ∷ hears hello ∷ []

run-create-IsLinked_example : IsLinked (core (run session (create "a" (some 2))))
run-create-IsLinked_example = run-create-IsLinked "a" (some 2) session

called-IsLinked : IsLinked (core called)
called-IsLinked = run-create-IsLinked "a" (some 2) (hears hello ∷ [])

new_fd_finds_example :
    (fd : ℕ) × ((new_fd called).0 ≡ some fd) × (fd < called.fd_max) × (conn_of fd called ≡ none)
unfolding create run apply on_message dispatch handle_connect new_fd scan_fd create_conn open_conn
    drop_previous pair_up Dict.get Dict.set ℕ_discrete text_discrete
new_fd_finds_example = new_fd_finds called 1 (omega arith) (omega arith) refl

called-Carries : Carries "b" 0 0 called
called-Carries = record { linked = called-IsLinked; remote = called_remote; held = called_conn }

abbrev traffic : List Traffic
traffic = reads 2 9 ∷ arrives (1 ∷ 2 ∷ 3 ∷ []) ∷ reads 8 9 ∷ arrives (4 ∷ []) ∷ []

carry-stream_example : stream 0 (carry "b" 0 traffic called) ≡ stream 0 called ++ 1 ∷ 2 ∷ 3 ∷ 4 ∷ []
unfolding arrived
carry-stream_example = carry-stream "b" 0 0 traffic called called-Carries
