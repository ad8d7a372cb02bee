-- ===== src/PeerManager/Links/Steps.antt =====
-- The calls of harness/runtime-only/harness-peer-manager.js and the invariant.
use dip_distributed_llm_runt.Prelude.{
  ℕ, ◌≡◌, ◌≢◌, refl, sym, Bool, List, [], ◌∷◌, ◌++◌, Option, String, arith, inl, inr, Option-cases,
  Bool-cases, ite-cases, text_discrete,
}
use dip_distributed_llm_runt.Prelude.Dict
use dip_distributed_llm_runt.PeerManager.{Manager, create, Conn, new_fd, remote_conn, Message, Kind}
use dip_distributed_llm_runt.PeerManager.Api.{
  create_conn, settle_accept, pair_up, handle_connect, accept_loop, accept, handle_close, dispatch,
  on_message, send, connect, Op, connects, accepts, sends, receives, closes_fd, registers, closes,
  hears, apply, run,
}
use dip_distributed_llm_runt.PeerManager.Fds.{new_fd_keeps_free}
use dip_distributed_llm_runt.PeerManager.Links.{core, Absent, Live, Queued, IsLinked}
use dip_distributed_llm_runt.PeerManager.Links.Bury.{tombstone-IsLinked}
use dip_distributed_llm_runt.PeerManager.Links.Touch.{Touches-IsLinked}
use dip_distributed_llm_runt.PeerManager.Links.Data.{
  write-Touches, handle_data-Touches, handle_accepted-Touches, recv-Touches, register_buf-Touches,
}
use dip_distributed_llm_runt.PeerManager.Links.Release.{close_connection-IsLinked, close-IsLinked}
use dip_distributed_llm_runt.PeerManager.Links.Open.{new_fd-IsLinked, create_conn-Opened}

settle_accept-core : (fd done : ℕ) (s : Manager) → core (settle_accept fd done s).1 ≡ core s
unfolding settle_accept
settle_accept-core fd done s = ground arith

-- The links without the accept queue, and a queue in its place.
requeue :
    (s : Manager) (fds : List ℕ)
    → IsLinked (core s)
    → Queued s.objects s.conns fds
    → IsLinked (core (record s { ready_fds = fds }))
requeue s fds v q = record {
  reserved = v.reserved;
  remote = v.remote;
  current = v.current;
  queued = q;
  sound = v.sound;
  bounded = v.bounded;
}

Absent-append : (x y : ℕ) (xs : List ℕ) → Absent x xs → y ≢ x → Absent x (xs ++ y ∷ [])
Absent-append x y [] h ne = (ne, tt)
Absent-append x y (z ∷ zs) h ne = (h.0, Absent-append x y zs h.1 ne)

Queued-append :
    (objects : ℕ → Conn) (conns : Dict.Dict ℕ ℕ) (fd r : ℕ) (fds : List ℕ)
    → Live objects conns fd r
    → Absent fd fds
    → Queued objects conns fds
    → Queued objects conns (fds ++ fd ∷ [])
Queued-append objects conns fd r [] live a q = ((r, live), tt, tt)
Queued-append objects conns fd r (k ∷ fds) live a (l, absent, rest) = (
  l,
  Absent-append k fd fds absent (λ e. a.0 (sym e)),
  Queued-append objects conns fd r fds live a.1 rest,
)

pair_up-IsLinked :
    (fd r : ℕ) (ws : List ℕ) (s : Manager)
    → IsLinked (core s)
    → Live s.objects s.conns fd r
    → Absent fd s.ready_fds
    → IsLinked (core (pair_up fd ws s))
unfolding pair_up
pair_up-IsLinked fd r [] s v live a =
    requeue s _ v (Queued-append s.objects s.conns fd r s.ready_fds live a v.queued)
pair_up-IsLinked fd r (w ∷ ws) s v live a =
    let t = record s { accept_waiters = ws } in
    elim (Bool-cases (settle_accept fd w t).0) [
      | inl e ↦ rw e (rw (settle_accept-core fd w t) v)
      | inr e ↦ rw e (rw (settle_accept-core fd w t) v)
    ]

handle_connect-IsLinked :
    (n : String) (s : Manager) → IsLinked (core s) → IsLinked (core (handle_connect n s))
unfolding handle_connect
handle_connect-IsLinked n s v = elim (Option-cases (new_fd s).0) [
  | inl e ↦ rw (e, handle_connect) (new_fd-IsLinked s v)
  | inr (fd, e) ↦
      (let (low, free) = new_fd_keeps_free s fd e in
        let o = create_conn-Opened fd n (new_fd s).1 (new_fd-IsLinked s v) free low in
        rw (e, handle_connect)
          (pair_up-IsLinked fd (new_fd s).1.next_ref _ _ o.linked o.live o.absent))
]

connect-IsLinked :
    (n : String) (done : ℕ) (s : Manager) → IsLinked (core s) → IsLinked (core (connect n done s))
unfolding connect
connect-IsLinked n done s v = elim (Option-cases (new_fd s).0) [
  | inl e ↦ rw (e, connect) (new_fd-IsLinked s v)
  | inr (fd, e) ↦
      (let (low, free) = new_fd_keeps_free s fd e in
        let r = (new_fd s).1.next_ref in
        let o = create_conn-Opened fd n (new_fd s).1 (new_fd-IsLinked s v) free low in
        rw (e, connect)
          (Touches-IsLinked o.linked (
            write-Touches r _ (create_conn fd n (new_fd s).1) o.linked refl refl refl (record {
              quiet = λ h. cc (o.live.1, h);
              counted = (o.linked.sound r).counted;
              owns_wake = (o.linked.sound r).owns_wake;
              owns_accepted = λ a h. ground (arith, o.object);
            }))))
]

accept_loop-IsLinked :
    (fds : List ℕ) (done : ℕ) (s : Manager)
    → IsLinked (core s)
    → Queued s.objects s.conns fds
    → IsLinked (core (accept_loop fds done s))
unfolding accept_loop
accept_loop-IsLinked [] done s v q = requeue s [] v tt
accept_loop-IsLinked (fd ∷ fds) done s v q =
    let t = record s { ready_fds = fds } in
    elim (Bool-cases (settle_accept fd done t).0) [
      | inl e ↦ rw e (rw (settle_accept-core fd done t) (requeue s fds v q.2))
      | inr e ↦ rw e (accept_loop-IsLinked fds done s v q.2)
    ]

handle_close-IsLinked :
    (n : String) (s : Manager) → IsLinked (core s) → IsLinked (core (handle_close n s))
unfolding handle_close
handle_close-IsLinked n s v = elim (Option-cases (remote_conn n s)) [
  | inl e ↦ rw (e, handle_close) v
  | inr (r, e) ↦ rw (e, handle_close) (tombstone-IsLinked r s v)
]

dispatch-IsLinked :
    (k : Kind) (n : String) (s : Manager) → IsLinked (core s) → IsLinked (core (dispatch k n s))
unfolding dispatch
dispatch-IsLinked Kind.connect n s v = handle_connect-IsLinked n s v
dispatch-IsLinked Kind.accepted n s v = Touches-IsLinked v (handle_accepted-Touches n s v)
dispatch-IsLinked (Kind.bytes b) n s v = Touches-IsLinked v (handle_data-Touches n b s v)
dispatch-IsLinked Kind.close n s v = handle_close-IsLinked n s v
dispatch-IsLinked Kind.unknown n s v = v

on_message-IsLinked :
    (m : Message) (s : Manager) → IsLinked (core s) → IsLinked (core (on_message m s))
unfolding on_message
on_message-IsLinked m s v =
    ite-cases (λ t. IsLinked (core t)) (text_discrete m.to s.node_id)
      (λ _. dispatch-IsLinked m.kind m.sender s v) (λ _. v)

send-core :
    (fails : Bool) (fd : ℕ) (bytes : List ℕ) (s : Manager) → core (send fails fd bytes s).1 ≡ core s
unfolding send
send-core fails fd bytes s = ground arith

create-IsLinked : (node : String) (fd_max : Option ℕ) → IsLinked (core (create node fd_max))
unfolding create Dict.get
create-IsLinked node fd_max = record {
  reserved = λ fd r h. cc h;
  remote = λ n r h. cc h;
  current = λ fd r h. cc h.0;
  queued = tt;
  sound = λ r. record {
    quiet = λ _. (refl, refl, refl, refl);
    counted = refl;
    owns_wake = λ w e. cc;
    owns_accepted = λ a e. cc;
  };
  bounded = omega arith;
}

-- Every call, and every frame from the transport, keeps the maps and the connections consistent.
pub apply-IsLinked : (op : Op) (s : Manager) → IsLinked (core s) → IsLinked (core (apply op s))
unfolding apply accept
apply-IsLinked (connects remote done) s v = connect-IsLinked remote done s v
apply-IsLinked (accepts done) s v = accept_loop-IsLinked s.ready_fds done s v v.queued
apply-IsLinked (sends fails fd bytes) s v = rw (send-core fails fd bytes s) v
apply-IsLinked (receives fd len done) s v = Touches-IsLinked v (recv-Touches fd len done s v)
apply-IsLinked (closes_fd fd) s v = close_connection-IsLinked fd s v
apply-IsLinked (registers fd ptr) s v = Touches-IsLinked v (register_buf-Touches fd ptr s v)
apply-IsLinked closes s v = close-IsLinked s v
apply-IsLinked (hears m) s v = on_message-IsLinked m s v

run-IsLinked : (ops : List Op) (s : Manager) → IsLinked (core s) → IsLinked (core (run ops s))
unfolding run
run-IsLinked [] s v = v
run-IsLinked (op ∷ ops) s v = run-IsLinked ops (apply op s) (apply-IsLinked op s v)

-- From a new manager, after any sequence of calls and frames, the connection objects, the fd map, the
-- remote map and the accept queue agree with one another.
pub run-create-IsLinked :
    (node : String) (fd_max : Option ℕ) (ops : List Op)
    → IsLinked (core (run ops (create node fd_max)))
run-create-IsLinked node fd_max ops = run-IsLinked ops _ (create-IsLinked node fd_max)
