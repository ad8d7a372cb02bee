-- ===== src/PeerManager/Fds.antt =====
-- `newFd` of harness/runtime-only/harness-peer-manager.js.
use dip_distributed_llm_runt.Prelude.{
  ℕ, zero, suc, ◌+◌, ◌≤◌, ◌<◌, ◌≡◌, ◌≢◌, ◌⊎◌, List, none, some, arith, leb, if◌then◌else◌,
  ℕ_discrete, Option-cases, inl, inr,
}
use dip_distributed_llm_runt.Prelude.Dict
use dip_distributed_llm_runt.Prelude.Dict.{Dict}
use dip_distributed_llm_runt.PeerManager.{Manager, scan_fd, new_fd, Output, conn_of}

scan_fd_free :
    (rounds fd_max next : ℕ) (conns : Dict ℕ ℕ) (fd : ℕ)
    → (scan_fd rounds fd_max next conns).0 ≡ some fd
    → 0 < fd_max
    → (fd < fd_max) × (Dict.get ℕ_discrete fd conns ≡ none)
unfolding scan_fd
scan_fd_free zero fd_max next conns fd h p = cc
scan_fd_free (suc rounds) fd_max next conns fd h p =
    ground (arith, scan_fd_free rounds fd_max ((if leb fd_max next then 0 else next) + 1) conns fd)

-- The fds that are not behind the scan's start, and those that it comes to after it starts over.
abbrev Ahead : ℕ → ℕ → ℕ → ℕ → Type 0
Ahead rounds fd_max start fd =
    ((start ≤ fd) × (fd < start + rounds)) ⊎ (fd + fd_max < start + rounds)

scan_fd_full :
    (rounds fd_max next : ℕ) (conns : Dict ℕ ℕ) (fd : ℕ)
    → (scan_fd rounds fd_max next conns).0 ≡ none
    → fd < fd_max
    → next ≤ fd_max
    → Ahead rounds fd_max (if leb fd_max next then 0 else next) fd
    → Dict.get ℕ_discrete fd conns ≢ none
unfolding scan_fd
scan_fd_full zero fd_max next conns fd h p q a = absurd (ground arith)
scan_fd_full (suc rounds) fd_max next conns fd h p q a =
    ground (arith, scan_fd_full rounds fd_max ((if leb fd_max next then 0 else next) + 1) conns fd)

scan_fd_pos :
    (fd_max next : ℕ) (conns : Dict ℕ ℕ) (fd : ℕ)
    → (scan_fd fd_max fd_max next conns).0 ≡ some fd
    → 0 < fd_max
unfolding scan_fd
scan_fd_pos zero next conns fd h = cc
scan_fd_pos (suc m) next conns fd h = omega arith

-- newFd hands out a number below fdMax that no connection holds, not even a tombstone.
pub new_fd_free :
    (s : Manager) (fd : ℕ) → (new_fd s).0 ≡ some fd → (fd < s.fd_max) × (conn_of fd s ≡ none)
unfolding new_fd
new_fd_free s fd h = ground (
  arith,
  scan_fd_pos s.fd_max s.next_fd s.conns fd,
  scan_fd_free s.fd_max s.fd_max s.next_fd s.conns fd,
)

-- With the scan's position not past fdMax, newFd fails only where every number below fdMax is reserved.
pub new_fd_full :
    (s : Manager) (fd : ℕ)
    → s.next_fd ≤ s.fd_max
    → (new_fd s).0 ≡ none
    → fd < s.fd_max
    → conn_of fd s ≢ none
unfolding new_fd
new_fd_full s fd b h p = ground (arith, scan_fd_full s.fd_max s.fd_max s.next_fd s.conns fd)

-- With the scan's position not past fdMax and any number below fdMax free, newFd finds one: a number below
-- fdMax that no connection holds, not even a tombstone.
pub new_fd_finds :
    (s : Manager) (free : ℕ)
    → s.next_fd ≤ s.fd_max
    → free < s.fd_max
    → conn_of free s ≡ none
    → (fd : ℕ) × ((new_fd s).0 ≡ some fd) × (fd < s.fd_max) × (conn_of fd s ≡ none)
new_fd_finds s free b inside unheld = elim (Option-cases (new_fd s).0) [
  | inl e ↦ absurd (new_fd_full s free b e inside unheld)
  | inr (fd, e) ↦ let (below, found) = new_fd_free s fd e in (fd, e, below, found)
]

-- newFd changes the scan's position and the log alone.
pub new_fd-keeps :
    (s : Manager)
    → (next : ℕ) × (log : List Output) × ((new_fd s).1 ≡ record s { next_fd = next; log = log })
unfolding new_fd
new_fd-keeps s = ((new_fd s).1.next_fd, (new_fd s).1.log, ground arith)

scan_fd-le :
    (rounds fd_max next : ℕ) (conns : Dict ℕ ℕ)
    → next ≤ fd_max
    → 0 < fd_max
    → (scan_fd rounds fd_max next conns).1 ≤ fd_max
unfolding scan_fd
scan_fd-le zero fd_max next conns h p = h
scan_fd-le (suc rounds) fd_max next conns h p =
    ground (arith, scan_fd-le rounds fd_max ((if leb fd_max next then 0 else next) + 1) conns)

all_rounds-le :
    (fd_max next : ℕ) (conns : Dict ℕ ℕ)
    → next ≤ fd_max
    → (scan_fd fd_max fd_max next conns).1 ≤ fd_max
all_rounds-le zero next conns h = unfold scan_fd in h
all_rounds-le (suc m) next conns h = scan_fd-le (suc m) (suc m) next conns h (omega arith)

-- The scan's position stays in range.
pub new_fd-le : (s : Manager) → s.next_fd ≤ s.fd_max → (new_fd s).1.next_fd ≤ s.fd_max
unfolding new_fd
new_fd-le s h = ground (arith, all_rounds-le s.fd_max s.next_fd s.conns)

-- The number that newFd returns is still free in the state that it leaves.
pub new_fd_keeps_free :
    (s : Manager) (fd : ℕ)
    → (new_fd s).0 ≡ some fd
    → (fd < (new_fd s).1.fd_max) × (conn_of fd (new_fd s).1 ≡ none)
new_fd_keeps_free s fd h = let (_, _, e) = new_fd-keeps s in rw e (new_fd_free s fd h)
