-- ===== src/PeerManager/Api.antt =====
-- harness/runtime-only/harness-peer-manager.js: the message handlers, and the methods of the object
-- that createHarnessPeerManager returns.
use dip_distributed_llm_runt.Prelude.{
  ℕ, ◌+◌, Bool, true, false, if◌then◌else◌, ite, List, [], ◌∷◌, ◌++◌, Option, none, some, String,
  ltb, ◌==◌, ◌*◌, min, length, take, ℕ_discrete, text_discrete,
}
use dip_distributed_llm_runt.Prelude.Dict
use dip_distributed_llm_runt.Prelude.Dict.{Dict}
use dip_distributed_llm_runt.PeerManager.{
  Manager, Conn, Message, Kind, Output, Event, blank, say, emit, post, bump, count, update, write,
  conn_of, remote_conn, new_fd, drain, take_wake, take_accepted, tombstone,
}

abbrev pub send_chunk_bytes : ℕ
send_chunk_bytes = 256 * 1024

abbrev pub fresh_conn : ℕ → String → Conn
fresh_conn fd remote = record blank { fd = fd; remote_id = remote; closed = false }

-- The part of `createConn` after the previous connection is dealt with. The new object is the
-- reference `s.next_ref`.
unfoldable pub open_conn : ℕ → String → Manager → Manager
open_conn fd remote s = emit (Event.opened fd remote (count s.connection_counts fd + 1)) (record s {
  objects = update s.objects s.next_ref (fresh_conn fd remote);
  next_ref = s.next_ref + 1;
  conns = Dict.set ℕ_discrete fd s.next_ref s.conns;
  by_remote = Dict.set text_discrete remote s.next_ref s.by_remote;
  connection_counts = bump fd s.connection_counts;
})

-- `if (previous) tombstone(previous);`
unfoldable pub drop_previous : String → Manager → Manager
drop_previous remote s = elim (remote_conn remote s) [ none ↦ s | some r ↦ tombstone r s ]

unfoldable pub create_conn : ℕ → String → Manager → Manager
create_conn fd remote s = open_conn fd remote (drop_previous remote s)

-- The new state, and whether the callback `done` was called.
unfoldable pub settle_accept : ℕ → ℕ → Manager → Bool × Manager
settle_accept fd done s = elim (conn_of fd s) [
  | none ↦ (false, s)
  | some r ↦
      if (s.objects r).closed
      then (false, s)
      else (let c = s.objects r in
          let answered = say (Output.answered done (some fd)) (post c.remote_id Kind.accepted s) in
          (
            true,
            emit (Event.accepted_fd fd c.remote_id (count s.accepted_counts fd + 1))
                (record answered { accepted_counts = bump fd s.accepted_counts }),
          ))
]

-- Pair a new fd with the longest waiting accept, or queue it.
unfoldable pub pair_up : ℕ → List ℕ → Manager → Manager
pair_up fd [] s = record s { ready_fds = s.ready_fds ++ fd ∷ [] }
pair_up fd (waiter ∷ waiters) s =
    let (settled, s') = settle_accept fd waiter (record s { accept_waiters = waiters }) in
    if settled then s' else record s' { accept_waiters = waiter ∷ s'.accept_waiters }

unfoldable pub handle_connect : String → Manager → Manager
handle_connect remote s =
    let (found, s') = new_fd s in
    elim found [
      | none ↦ s'
      | some fd ↦ let s'' = create_conn fd remote s' in pair_up fd s''.accept_waiters s''
    ]

-- The part of `handleData` before the wake-up.
unfoldable pub push_bytes : ℕ → List ℕ → Manager → Manager
push_bytes r bytes s =
    let c = s.objects r in
    write r
      (record c { queue = c.queue ++ bytes ∷ []; queued_bytes = c.queued_bytes + length bytes }) s

unfoldable pub handle_data : String → List ℕ → Manager → Manager
handle_data remote bytes s = elim (remote_conn remote s) [
  | none ↦ s
  | some r ↦ if length bytes == 0 then s else take_wake r (push_bytes r bytes s)
]

unfoldable pub handle_accepted : String → Manager → Manager
handle_accepted remote s = elim (remote_conn remote s) [
  | none ↦ s
  | some r ↦ take_accepted r true s
]

unfoldable pub handle_close : String → Manager → Manager
handle_close remote s = elim (remote_conn remote s) [ none ↦ s | some r ↦ tombstone r s ]

unfoldable pub dispatch : Kind → String → Manager → Manager
dispatch Kind.connect from s = handle_connect from s
dispatch Kind.accepted from s = handle_accepted from s
dispatch (Kind.bytes b) from s = handle_data from b s
dispatch Kind.close from s = handle_close from s
dispatch Kind.unknown from s = emit Event.unknown_frame s

-- The handler given to transport.onMessage. A frame for another node is ignored.
unfoldable pub on_message : Message → Manager → Manager
on_message m s = ite (text_discrete m.to s.node_id) (dispatch m.kind m.sender s) s

unfoldable pub connect : String → ℕ → Manager → Manager
connect remote done s =
    let (found, s') = new_fd s in
    elim found [
      | none ↦ say (Output.answered done none) s'
      | some fd ↦
          let s'' = create_conn fd remote s' in
          post remote Kind.connect (
            write s'.next_ref
              (record (s''.objects s'.next_ref) {
                accepted = some (record { fd = fd; callback = done });
              })
              s'')
    ]

-- The loop over `readyFds`.
unfoldable pub accept_loop : List ℕ → ℕ → Manager → Manager
accept_loop [] done s = record s { ready_fds = []; accept_waiters = s.accept_waiters ++ done ∷ [] }
accept_loop (fd ∷ fds) done s =
    let later = accept_loop fds done s in
    let (settled, s') = settle_accept fd done (record s { ready_fds = fds }) in
    if settled then s' else later

unfoldable pub accept : ℕ → Manager → Manager
accept done s = accept_loop s.ready_fds done s

-- `fails` says that transport.post throws. The result is the count of bytes taken, or -1.
unfoldable pub send : Bool → ℕ → List ℕ → Manager → Option ℕ × Manager
send fails fd bytes s = elim (conn_of fd s) [
  | none ↦ (none, s)
  | some r ↦
      if (s.objects r).closed
      then (none, s)
      else (if length bytes == 0
          then (some 0, s)
          else (let amount = min send_chunk_bytes (length bytes) in
              if fails
              then (none, emit (Event.send_failed fd) s)
              else (some amount, post (s.objects r).remote_id (Kind.bytes (take amount bytes)) s)))
]

unfoldable pub recv : ℕ → ℕ → ℕ → Manager → Manager
recv fd len done s = elim (conn_of fd s) [
  | none ↦ say (Output.received done false) s
  | some r ↦
      if (s.objects r).closed
      then say (Output.received done false) s
      else (let (written, s') = drain r len done s in
          if ltb 0 written
          then say (Output.received done true) s'
          else write r
              (record (s'.objects r) {
                wake = some (record { fd = fd; conn = r; len = len; callback = done });
              })
              s')
]

-- The result is false for -1 and true for 0.
unfoldable pub close_connection : ℕ → Manager → Bool × Manager
close_connection fd s = elim (conn_of fd s) [
  | none ↦ (false, s)
  | some r ↦
      (let remote = (s.objects r).remote_id in
        let s' = if (s.objects r).closed then s else tombstone r (post remote Kind.close s) in
        (
          true,
          emit (Event.runtime_close fd remote (count s'.runtime_close_counts fd + 1)) (record s' {
            conns = Dict.delete ℕ_discrete fd s'.conns;
            runtime_close_counts = bump fd s'.runtime_close_counts;
          }),
        ))
]

unfoldable pub register_buf : ℕ → ℕ → Manager → Manager
register_buf fd ptr s =
    let epoch = count s.registration_counts fd + 1 in
    let counted =
      λ (t : Manager). record t { registration_counts = bump fd t.registration_counts } in
    elim (conn_of fd s) [
      | none ↦ emit (Event.registered fd ptr epoch none) (counted s)
      | some r ↦
          let c = s.objects r in
          emit (Event.registered fd ptr epoch (some c.remote_id))
            (counted (write r (record c { module_buf = some ptr }) s))
    ]

unfoldable pub tombstone_all : List ℕ → Manager → Manager
tombstone_all [] s = s
tombstone_all (r ∷ rs) s = tombstone_all rs (tombstone r s)

unfoldable pub close : Manager → Manager
close s =
    let s' = tombstone_all (Dict.values s.conns) s in
    emit (Event.closed_all (length s'.accept_waiters))
      (record s' { by_remote = []; ready_fds = [] })

-- The fds in `refs` whose object is not closed.
unfoldable pub live_fds : (ℕ → Conn) → List (ℕ × ℕ) → List ℕ
live_fds objects [] = []
live_fds objects ((fd, r) ∷ pairs) =
    let later = live_fds objects pairs in if (objects r).closed then later else fd ∷ later

unfoldable pub open_fds : Manager → List ℕ
open_fds s = live_fds s.objects s.conns

unfoldable pub reserved_fds : Manager → List ℕ
reserved_fds s = Dict.keys s.conns

-- The calls that reach a manager, in any order.
pub data Op : Type 0 where
  connects : String → (done : ℕ) → Op
  accepts : (done : ℕ) → Op
  sends : Bool → (fd : ℕ) → List ℕ → Op
  receives : (fd len done : ℕ) → Op
  closes_fd : ℕ → Op
  registers : (fd ptr : ℕ) → Op
  closes : Op
  hears : Message → Op

unfoldable pub apply : Op → Manager → Manager
apply (connects remote done) s = connect remote done s
apply (accepts done) s = accept done s
apply (sends fails fd bytes) s = (send fails fd bytes s).1
apply (receives fd len done) s = recv fd len done s
apply (closes_fd fd) s = (close_connection fd s).1
apply (registers fd ptr) s = register_buf fd ptr s
apply closes s = close s
apply (hears m) s = on_message m s

unfoldable pub run : List Op → Manager → Manager
run [] s = s
run (op ∷ ops) s = run ops (apply op s)
