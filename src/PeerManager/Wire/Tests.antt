-- ===== src/PeerManager/Wire/Tests.antt =====
-- Two peer managers that talk to each other.
use dip_distributed_llm_runt.Prelude.{
  ◌≡◌, refl, true, false, List, [], ◌∷◌, ◌++◌, some, arith, ℕ_discrete, text_discrete,
}
use dip_distributed_llm_runt.Prelude.Dict
use dip_distributed_llm_runt.PeerManager.{
  Manager, Message, Kind, create, new_fd, scan_fd, take_accepted, drain, take_wake,
}
use dip_distributed_llm_runt.PeerManager.Api.{
  connects, accepts, hears, apply, run, connect, accept, accept_loop, settle_accept, on_message,
  dispatch, handle_connect, handle_accepted, create_conn, open_conn, drop_previous, pair_up,
  handle_data, send, recv, push_bytes,
}
use dip_distributed_llm_runt.PeerManager.Links.Steps.{run-create-IsLinked}
use dip_distributed_llm_runt.PeerManager.Wire.{
  Pair, Move, sends, arrives, reads, moves, all_taken, move, hear_next, outbox,
}
use dip_distributed_llm_runt.PeerManager.Wire.Sending.{IsPaired, line}
use dip_distributed_llm_runt.PeerManager.Wire.Flow.{moves-line}

abbrev hello : Message
hello = record { sender = "a"; to = "b"; kind = Kind.connect }

abbrev welcome : Message
welcome = record { sender = "b"; to = "a"; kind = Kind.accepted }

abbrev left : Manager
left = run (connects "b" 7 ∷ hears welcome ∷ []) (create "a" (some 2))

abbrev right : Manager
right = run (accepts 1 ∷ hears hello ∷ []) (create "b" (some 2))

-- The right manager has heard the request to connect.
abbrev joined : Pair
joined = record { left = left; right = right; heard = 1 }

joined-IsPaired : IsPaired "a" "b" 0 0 0 0 joined
unfolding create run apply connect accept accept_loop settle_accept on_message dispatch
    handle_connect handle_accepted take_accepted new_fd scan_fd create_conn open_conn drop_previous
    pair_up outbox Dict.get Dict.set ℕ_discrete text_discrete
joined-IsPaired = record {
  carries = record {
    linked = run-create-IsLinked "b" (some 2) (accepts 1 ∷ hears hello ∷ []);
    remote = refl;
    held = refl;
  };
  left_named = refl;
  right_named = refl;
  held = refl;
  live = refl;
  peer = refl;
  heard = omega arith;
  frames = tt;
}

abbrev talk : List Move
talk =
    sends false (1 ∷ 2 ∷ [])
    ∷ reads 1 8
    ∷ sends true (3 ∷ [])
    ∷ arrives
    ∷ sends false (3 ∷ [])
    ∷ reads 4 9
    ∷ arrives
    ∷ []

moves-line_example : line 0 (moves 0 0 talk joined) ≡ line 0 joined ++ all_taken 0 0 talk joined
moves-line_example = moves-line "a" "b" 0 0 0 0 talk joined joined-IsPaired

takes_three : all_taken 0 0 talk joined ≡ 1 ∷ 2 ∷ 3 ∷ []
unfolding all_taken move hear_next create run apply connect accept accept_loop settle_accept
    on_message dispatch handle_connect handle_accepted handle_data take_accepted new_fd scan_fd
    create_conn open_conn drop_previous pair_up outbox send recv drain push_bytes take_wake Dict.get
    Dict.set ℕ_discrete text_discrete
takes_three = refl
