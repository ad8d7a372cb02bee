-- ===== src/PeerManager.antt =====
-- harness/runtime-only/harness-peer-manager.js: the state of one peer manager, and the helpers of
-- createHarnessPeerManager that its handlers share.
--
-- A connection object is a cell of `objects`, named by a reference, so that the maps `conns` and
-- `by_remote` alias it as the two JavaScript maps do. References are handed out in order and never
-- reused. A callback is a number; calling it, emitting an event and posting a message are entries
-- of `log`, newest first. Callbacks do not call back into the manager, and `transport.post` returns
-- normally, except in `send`, which catches its error.
pub mod Report
pub mod Wire
pub mod Drain
pub mod Api
pub mod Tombstone
pub mod Fds
pub mod Links
pub mod Ledger
pub mod Stream
mod Tests
use dip_distributed_llm_runt.Prelude.{
  ℕ, zero, suc, ◌+◌, ◌-◌, Bool, true, false, if◌then◌else◌, ite, List, [], ◌∷◌, Option, none, some,
  String, leb, ltb, ℕ_discrete, text_discrete,
}
use dip_distributed_llm_runt.Prelude.Dict
use dip_distributed_llm_runt.Prelude.Dict.{Dict}
use Drain.{Drained, drain_queue}
use mathlib.Core.Option.{get_or}

-- `Kind` is the message's kind with its payload; the default branch of the switch is `unknown`.
pub data Kind : Type 0 where
  connect accepted close unknown : Kind
  bytes : List ℕ → Kind

pub record Message : Type 0 where
  pub sender : String
  pub to : String
  pub kind : Kind

pub data Event : Type 0 where
  no_free_fd : Event
  unknown_frame : Event
  send_failed : ℕ → Event
  opened : (fd : ℕ) → String → (connection : ℕ) → Event
  closed_conn : (fd : ℕ) → String → Event
  accepted_fd : (fd : ℕ) → String → (count : ℕ) → Event
  runtime_close : (fd : ℕ) → String → (count : ℕ) → Event
  registered : (fd ptr epoch : ℕ) → Option String → Event
  closed_all : (pending_accepts : ℕ) → Event

-- What leaves the manager. `answered k none` is the callback's answer -1.
pub data Output : Type 0 where
  emitted : Event → Output
  posted : Message → Output
  answered : (callback : ℕ) → (fd : Option ℕ) → Output
  wrote : (callback : ℕ) → List ℕ → Output
  received : (callback : ℕ) → Bool → Output

-- The closure that `recv` leaves in `conn.wake`.
pub record Wake : Type 0 where
  pub fd : ℕ
  pub conn : ℕ
  pub len : ℕ
  pub callback : ℕ

-- The closure that `connect` leaves in `conn.accepted`.
pub record Waiting : Type 0 where
  pub fd : ℕ
  pub callback : ℕ

pub record Conn : Type 0 where
  pub fd : ℕ
  pub remote_id : String
  pub closed : Bool
  pub queue : List (List ℕ)
  pub queued_bytes : ℕ
  pub wake : Option Wake
  pub accepted : Option Waiting
  pub module_buf : Option ℕ

pub record Manager : Type 0 where
  pub node_id : String
  pub fd_max : ℕ
  pub objects : ℕ → Conn
  pub next_ref : ℕ
  pub conns : Dict ℕ ℕ
  pub by_remote : Dict String ℕ
  pub ready_fds : List ℕ
  pub accept_waiters : List ℕ
  pub connection_counts : Dict ℕ ℕ
  pub registration_counts : Dict ℕ ℕ
  pub accepted_counts : Dict ℕ ℕ
  pub runtime_close_counts : Dict ℕ ℕ
  pub next_fd : ℕ
  pub log : List Output

abbrev pub default_fd_max : ℕ
default_fd_max = 1024

-- What a connection object is before it is made; no reference leads to it.
abbrev pub blank : Conn
blank = record {
  fd = 0;
  remote_id = "";
  closed = true;
  queue = [];
  queued_bytes = 0;
  wake = none;
  accepted = none;
  module_buf = none;
}

unfoldable pub create : String → Option ℕ → Manager
create node fd_max = record {
  node_id = node;
  fd_max = get_or fd_max default_fd_max;
  objects = λ _. blank;
  next_ref = 0;
  conns = [];
  by_remote = [];
  ready_fds = [];
  accept_waiters = [];
  connection_counts = [];
  registration_counts = [];
  accepted_counts = [];
  runtime_close_counts = [];
  next_fd = 0;
  log = [];
}

abbrev pub say : Output → Manager → Manager
say o s = record s { log = o ∷ s.log }

abbrev pub emit : Event → Manager → Manager
emit e = say (emitted e)

abbrev pub post : String → Kind → Manager → Manager
post to kind s = say (posted (record { sender = s.node_id; to = to; kind = kind })) s

abbrev pub count : Dict ℕ ℕ → ℕ → ℕ
count counter fd = get_or (Dict.get ℕ_discrete fd counter) 0

abbrev pub bump : ℕ → Dict ℕ ℕ → Dict ℕ ℕ
bump fd counter = Dict.set ℕ_discrete fd (count counter fd + 1) counter

abbrev pub update : (ℕ → Conn) → ℕ → Conn → ℕ → Conn
update objects r c q = ite (ℕ_discrete q r) c (objects q)

abbrev pub write : ℕ → Conn → Manager → Manager
write r c s = record s { objects = update s.objects r c }

abbrev pub conn_of : ℕ → Manager → Option ℕ
conn_of fd s = Dict.get ℕ_discrete fd s.conns

abbrev pub remote_conn : String → Manager → Option ℕ
remote_conn remote s = Dict.get text_discrete remote s.by_remote

-- The loop of `newFd` with `rounds` left: the fd, and `nextFd` after it.
pub scan_fd : ℕ → ℕ → ℕ → Dict ℕ ℕ → Option ℕ × ℕ
scan_fd zero fd_max next conns = (none, next)
scan_fd (suc rounds) fd_max next conns =
    let fd = if leb fd_max next then 0 else next in
    let rest = scan_fd rounds fd_max (fd + 1) conns in
    elim (Dict.get ℕ_discrete fd conns) [ none ↦ (some fd, fd + 1) | some r ↦ rest ]

pub new_fd : Manager → Option ℕ × Manager
new_fd s =
    let (found, next) = scan_fd s.fd_max s.fd_max s.next_fd s.conns in
    let s' = record s { next_fd = next } in
    elim found [ none ↦ (none, emit no_free_fd s') | some fd ↦ (some fd, s') ]

-- `indexOf` and `splice`: the first occurrence goes.
pub remove_first : ℕ → List ℕ → List ℕ
remove_first x [] = []
remove_first x (y ∷ ys) = ite (ℕ_discrete y x) ys (y ∷ remove_first x ys)

-- The calls of writeCB, in order.
pub write_all : ℕ → List (List ℕ) → List Output → List Output
write_all k [] log = log
write_all k (w ∷ ws) log = write_all k ws (wrote k w ∷ log)

-- `drain` of `recv`, on the object `r`.
pub drain : ℕ → ℕ → ℕ → Manager → ℕ × Manager
drain r len callback s =
    let c = s.objects r in
    let d = drain_queue c.queue len in
    (
      d.written,
      record s {
        objects =
            update s.objects r
              (record c { queue = d.rest; queued_bytes = c.queued_bytes - d.written });
        log = write_all callback d.writes s.log;
      },
    )

-- The body of the closure that `recv` parks.
pub run_wake : Wake → Manager → Manager
run_wake w s = elim (conn_of w.fd s) [
  | none ↦ say (received w.callback false) s
  | some r ↦
      ite (ℕ_discrete r w.conn)
        (if (s.objects w.conn).closed
          then say (received w.callback false) s
          else say (received w.callback true) (drain w.conn w.len w.callback s).1)
        (say (received w.callback false) s)
]

-- `const wake = conn.wake; conn.wake = null; if (wake) wake();`
pub take_wake : ℕ → Manager → Manager
take_wake r s =
    let s' = write r (record (s.objects r) { wake = none }) s in
    elim (s.objects r).wake [ none ↦ s' | some w ↦ run_wake w s' ]

-- `const accepted = conn.accepted; conn.accepted = null; if (accepted) accepted(ok);`
pub take_accepted : ℕ → Bool → Manager → Manager
take_accepted r good s =
    let s' = write r (record (s.objects r) { accepted = none }) s in
    elim (s.objects r).accepted [
      | none ↦ s'
      | some a ↦ say (answered a.callback (if good then some a.fd else none)) s'
    ]

-- The first half of `tombstone`: the object is closed and emptied, and leaves `byRemote` and the
-- accept queue. It stays in `conns`.
pub silence : ℕ → Manager → Manager
silence r s =
    let c = s.objects r in
    record s {
      objects = update s.objects r (record c { closed = true; queue = []; queued_bytes = 0 });
      by_remote = elim (Dict.get text_discrete c.remote_id s.by_remote) [
        | none ↦ s.by_remote
        | some q ↦
            ite (ℕ_discrete q r) (Dict.delete text_discrete c.remote_id s.by_remote) s.by_remote
      ];
      ready_fds = remove_first c.fd s.ready_fds;
    }

pub tombstone : ℕ → Manager → Manager
tombstone r s =
    if (s.objects r).closed
    then s
    else emit (closed_conn (s.objects r).fd (s.objects r).remote_id)
        (take_accepted r false (take_wake r (silence r s)))
