-- ===== src/PeerManager/Ledger/Balance.antt =====
-- Reserved fds and their counters in harness/runtime-only/harness-peer-manager.js.
use dip_distributed_llm_runt.Prelude.{
  ℕ, ◌+◌, ◌≡◌, ◌≢◌, refl, List, [], ◌∷◌, Option, none, some, String, arith, inl, inr, ℕ_discrete,
  true, false, Bool-cases,
}
use dip_distributed_llm_runt.Prelude.Dict
use dip_distributed_llm_runt.PeerManager.{Manager, create, count, conn_of, tombstone, post, Kind}
use dip_distributed_llm_runt.PeerManager.Api.{Op, closes_fd, apply, run, close_connection}
use dip_distributed_llm_runt.PeerManager.Links.{core, IsLinked}
use dip_distributed_llm_runt.PeerManager.Links.Release.{tombstone-closes}
use dip_distributed_llm_runt.PeerManager.Ledger.{Ledger, ledger}
use dip_distributed_llm_runt.PeerManager.Ledger.Changes.{
  Change, same, opens, releases, apply-Change,
}

-- 1 where the fd is reserved, and 0 where it is free.
abbrev pub held : Option ℕ → ℕ
held none = 0
held (some r) = 1

abbrev pub IsBalanced : Ledger → Type 0
IsBalanced l =
    (fd : ℕ) → count l.opened fd ≡ count l.released fd + held (Dict.get ℕ_discrete fd l.conns)

Change-IsBalanced : {op : Op} {l m : Ledger} → Change op l m → IsBalanced l → IsBalanced m
Change-IsBalanced (same e) b fd = ground (arith, b fd)
Change-IsBalanced {l} (opens k r free e) b fd = ground (
  arith,
  b fd,
  b k,
  Dict.get-set ℕ_discrete fd k r l.conns,
  Dict.get-set ℕ_discrete fd k (count l.opened k + 1) l.opened,
)
Change-IsBalanced {l} (releases k r o taken e) b fd = ground (
  arith,
  b fd,
  b k,
  Dict.get-delete ℕ_discrete fd k l.conns,
  Dict.get-set ℕ_discrete fd k (count l.released k + 1) l.released,
)

run-IsBalanced :
    (ops : List Op) (s : Manager) → IsBalanced (ledger s) → IsBalanced (ledger (run ops s))
unfolding run
run-IsBalanced [] s b = b
run-IsBalanced (op ∷ ops) s b =
    run-IsBalanced ops (apply op s) (Change-IsBalanced (apply-Change op s) b)

-- After any calls and frames on a new manager, each fd number has been opened exactly as often as the
-- Runtime has closed it, and once more if a connection, live or tombstoned, still holds it.
pub run-create-IsBalanced :
    (node : String) (fd_max : Option ℕ) (ops : List Op)
    → IsBalanced (ledger (run ops (create node fd_max)))
run-create-IsBalanced node fd_max ops = run-IsBalanced ops (create node fd_max) start
  where
    start : IsBalanced (ledger (create node fd_max))
    start fd = unfold create Dict.get in refl

Change-keeps :
    {op : Op} {l m : Ledger} (fd r : ℕ)
    → Change op l m
    → op ≢ closes_fd fd
    → Dict.get ℕ_discrete fd l.conns ≡ some r
    → Dict.get ℕ_discrete fd m.conns ≡ some r
Change-keeps fd r (same e) ne h = ground arith
Change-keeps {l} fd r (opens k q free e) ne h =
    ground (arith, Dict.get-set ℕ_discrete fd k q l.conns)
Change-keeps {l} fd r (releases k q o taken e) ne h =
    ground (arith, Dict.get-delete ℕ_discrete fd k l.conns)

-- An fd in use stays with its connection object through every call and frame but the Runtime's
-- close_connection of that fd: no new connection is given the number, and a tombstone keeps it.
pub apply-keeps :
    (op : Op) (s : Manager) (fd r : ℕ)
    → op ≢ closes_fd fd
    → conn_of fd s ≡ some r
    → conn_of fd (apply op s) ≡ some r
apply-keeps op s fd r ne h = Change-keeps fd r (apply-Change op s) ne h

close_connection_free :
    (fd : ℕ) (s : Manager) → conn_of fd s ≡ none → (close_connection fd s).0 ≡ false
unfolding close_connection
close_connection_free fd s e = rw (e, close_connection)

close_connection_held :
    (fd r : ℕ) (s : Manager)
    → IsLinked (core s)
    → conn_of fd s ≡ some r
    → ((close_connection fd s).0 ≡ true)
      × (conn_of fd (close_connection fd s).1 ≡ none)
      × (((close_connection fd s).1.objects r).closed ≡ true)
unfolding close_connection
close_connection_held fd r s v e =
    rw (e, close_connection)
      (elim (Bool-cases (s.objects r).closed) [
        | inl c ↦ rw c (refl, Dict.get-delete_self ℕ_discrete fd s.conns, c)
        | inr c ↦
            let told = post (s.objects r).remote_id Kind.close s in
            rw c (
              refl,
              Dict.get-delete_self ℕ_discrete fd (tombstone r told).conns,
              (tombstone-closes r r told v).1,
            )
      ])

-- In a state where the tables agree, close_connection on an fd in use answers 0, leaves the connection closed
-- and the number free, and a second call on the number answers -1.
pub close_connection_once :
    (fd r : ℕ) (s : Manager)
    → IsLinked (core s)
    → conn_of fd s ≡ some r
    → ((close_connection fd s).0 ≡ true)
      × (conn_of fd (close_connection fd s).1 ≡ none)
      × (((close_connection fd s).1.objects r).closed ≡ true)
      × ((close_connection fd (close_connection fd s).1).0 ≡ false)
close_connection_once fd r s v e =
    let (good, gone, shut) = close_connection_held fd r s v e in
    (good, gone, shut, close_connection_free fd (close_connection fd s).1 gone)
