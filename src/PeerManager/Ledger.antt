-- ===== src/PeerManager/Ledger.antt =====
-- Which fds are reserved, and the counters of harness/runtime-only/harness-peer-manager.js that follow
-- them: `connections` and `runtimeCloses` of `fdStats`.
pub mod Changes
pub mod Balance
use dip_distributed_llm_runt.Prelude.{
  ℕ, zero, suc, ◌+◌, ◌<◌, ◌≡◌, ◌≢◌, refl, ◌∙◌, sym, Bool, true, false, List, [], ◌∷◌, none, some,
  arith, ap, subst, ite, String, Option, inl, inr, Option-cases, Bool-cases, ite-cases, ℕ_discrete,
  text_discrete, if◌then◌else◌,
}
use dip_distributed_llm_runt.Prelude.Dict
use dip_distributed_llm_runt.Prelude.Dict.{Dict}
use dip_distributed_llm_runt.PeerManager.{
  Manager, create, count, bump, conn_of, remote_conn, new_fd, tombstone, post, Kind, Message,
  take_accepted, take_wake,
}
use dip_distributed_llm_runt.PeerManager.Api.{
  open_conn, drop_previous, create_conn, settle_accept, pair_up, handle_connect, push_bytes,
  handle_data, handle_accepted, handle_close, dispatch, on_message, connect, accept_loop, accept,
  send, recv, close_connection, register_buf, tombstone_all, close, Op, connects, accepts, sends,
  receives, closes_fd, registers, closes, hears, apply, run,
}
use dip_distributed_llm_runt.PeerManager.Tombstone.{
  tombstone-Keeps, take_accepted-Keeps, take_wake-Keeps, drain-Keeps, Keeps,
}
use dip_distributed_llm_runt.PeerManager.Fds.{new_fd-keeps, new_fd_free}

pub record Ledger : Type 0 where
  pub conns : Dict ℕ ℕ
  pub opened : Dict ℕ ℕ
  pub released : Dict ℕ ℕ

abbrev pub ledger : Manager → Ledger
ledger s = record {
  conns = s.conns;
  opened = s.connection_counts;
  released = s.runtime_close_counts;
}

-- A change that leaves the three maps alone.
abbrev pub Same : Manager → Manager → Type 0
Same s t = ledger t ≡ ledger s

pub Keeps-Same : {s t : Manager} → Keeps s t → Same s t
Keeps-Same k = ground arith

pub drop_previous-Same : (n : String) (s : Manager) → Same s (drop_previous n s)
unfolding drop_previous
drop_previous-Same n s = elim (Option-cases (remote_conn n s)) [
  | inl e ↦ rw (e, drop_previous)
  | inr (r, e) ↦ rw (e, drop_previous) (Keeps-Same (tombstone-Keeps r s))
]

pub settle_accept-Same : (fd done : ℕ) (s : Manager) → Same s (settle_accept fd done s).1
unfolding settle_accept
settle_accept-Same fd done s = ground arith

pub pair_up-Same : (fd : ℕ) (ws : List ℕ) (s : Manager) → Same s (pair_up fd ws s)
unfolding pair_up
pair_up-Same fd [] s = refl
pair_up-Same fd (w ∷ ws) s =
    ground (arith, settle_accept-Same fd w (record s { accept_waiters = ws }))

pub accept_loop-Same : (fds : List ℕ) (done : ℕ) (s : Manager) → Same s (accept_loop fds done s)
unfolding accept_loop
accept_loop-Same [] done s = refl
accept_loop-Same (fd ∷ fds) done s =
    ground (
      arith,
      settle_accept-Same fd done (record s { ready_fds = fds }),
      accept_loop-Same fds done s,
    )

pub handle_data-Same : (n : String) (b : List ℕ) (s : Manager) → Same s (handle_data n b s)
unfolding handle_data push_bytes
handle_data-Same n b s = elim (Option-cases (remote_conn n s)) [
  | inl e ↦ rw (e, handle_data)
  | inr (r, e) ↦ rw (e, handle_data) (ground (arith, take_wake-Keeps r (push_bytes r b s)))
]

pub handle_accepted-Same : (n : String) (s : Manager) → Same s (handle_accepted n s)
unfolding handle_accepted
handle_accepted-Same n s = elim (Option-cases (remote_conn n s)) [
  | inl e ↦ rw (e, handle_accepted)
  | inr (r, e) ↦ rw (e, handle_accepted) (Keeps-Same (take_accepted-Keeps r true s))
]

pub handle_close-Same : (n : String) (s : Manager) → Same s (handle_close n s)
unfolding handle_close
handle_close-Same n s = elim (Option-cases (remote_conn n s)) [
  | inl e ↦ rw (e, handle_close)
  | inr (r, e) ↦ rw (e, handle_close) (Keeps-Same (tombstone-Keeps r s))
]

pub send-Same : (fails : Bool) (fd : ℕ) (b : List ℕ) (s : Manager) → Same s (send fails fd b s).1
unfolding send
send-Same fails fd b s = ground arith

pub recv-Same : (fd len done : ℕ) (s : Manager) → Same s (recv fd len done s)
unfolding recv
recv-Same fd len done s = elim (Option-cases (conn_of fd s)) [
  | inl e ↦ rw (e, recv)
  | inr (r, e) ↦ rw (e, recv) (ground (arith, drain-Keeps r len done s))
]

pub register_buf-Same : (fd ptr : ℕ) (s : Manager) → Same s (register_buf fd ptr s)
unfolding register_buf
register_buf-Same fd ptr s = ground arith

pub tombstone_all-Same : (rs : List ℕ) (s : Manager) → Same s (tombstone_all rs s)
unfolding tombstone_all
tombstone_all-Same [] s = refl
tombstone_all-Same (r ∷ rs) s =
    tombstone_all-Same rs (tombstone r s) ∙ Keeps-Same (tombstone-Keeps r s)

pub close-Same : (s : Manager) → Same s (close s)
unfolding close
close-Same s = tombstone_all-Same (Dict.values s.conns) s
