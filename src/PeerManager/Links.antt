-- ===== src/PeerManager/Links.antt =====
-- The maps of harness/runtime-only/harness-peer-manager.js against one another: the invariant that
-- ties `conns`, `byRemote`, `readyFds` and the connection objects together.
pub mod Bury
pub mod Touch
pub mod Open
pub mod Data
pub mod Release
pub mod Steps
use dip_distributed_llm_runt.Prelude.{
  ℕ, ◌+◌, ◌<◌, ◌≤◌, ◌≡◌, ◌≢◌, Bool, true, false, List, [], ◌∷◌, none, some, Option, String, length,
  ℕ_discrete, text_discrete,
}
use dip_distributed_llm_runt.Prelude.Dict
use dip_distributed_llm_runt.Prelude.Dict.{Dict}
use dip_distributed_llm_runt.PeerManager.{Manager, Conn, Waiting}
use dip_distributed_llm_runt.PeerManager.Drain.{total}
use dip_distributed_llm_runt.PeerManager.Tombstone.{OwnsWake}

-- The fields that the invariant speaks of.
pub record Core : Type 0 where
  pub objects : ℕ → Conn
  pub next_ref : ℕ
  pub fd_max : ℕ
  pub next_fd : ℕ
  pub conns : Dict ℕ ℕ
  pub by_remote : Dict String ℕ
  pub ready_fds : List ℕ

abbrev pub core : Manager → Core
core s = record {
  objects = s.objects;
  next_ref = s.next_ref;
  fd_max = s.fd_max;
  next_fd = s.next_fd;
  conns = s.conns;
  by_remote = s.by_remote;
  ready_fds = s.ready_fds;
}

abbrev pub Absent : ℕ → List ℕ → Type 0
Absent x [] = Unit {0}
Absent x (y ∷ ys) = (y ≢ x) × Absent x ys

-- `fd` is in use by the connection object `r`, which is open.
abbrev pub Live : (ℕ → Conn) → Dict ℕ ℕ → ℕ → ℕ → Type 0
Live objects conns fd r = (Dict.get ℕ_discrete fd conns ≡ some r) × ((objects r).closed ≡ false)

-- Each fd in the accept queue is live, and is there once.
abbrev pub Queued : (ℕ → Conn) → Dict ℕ ℕ → List ℕ → Type 0
Queued objects conns [] = Unit {0}
Queued objects conns (fd ∷ fds) =
    ((r : ℕ) × Live objects conns fd r) × Absent fd fds × Queued objects conns fds

-- What holds of each object: a closed one holds no data and no callback, `queuedBytes` is the size of
-- the queue, and the parked closures are the object's own.
pub record IsSound (c : Conn) (r : ℕ) : Type 0 where
  pub quiet :
      c.closed ≡ true
      → (c.queue ≡ []) × (c.queued_bytes ≡ 0) × (c.wake ≡ none) × (c.accepted ≡ none)
  pub counted : c.queued_bytes ≡ total c.queue
  pub owns_wake : OwnsWake c r
  pub owns_accepted : (a : Waiting) → c.accepted ≡ some a → a.fd ≡ c.fd

pub record IsLinked (c : Core) : Type 0 where
  -- An fd in use is below fdMax, and leads to an object that carries it.
  pub reserved :
      (fd r : ℕ)
      → Dict.get ℕ_discrete fd c.conns ≡ some r
      → (r < c.next_ref) × ((c.objects r).fd ≡ fd) × (fd < c.fd_max)
  -- A remote leads to an open object of its own, which its fd leads to as well.
  pub remote :
      (n : String) (r : ℕ)
      → Dict.get text_discrete n c.by_remote ≡ some r
      → ((c.objects r).closed ≡ false)
        × ((c.objects r).remote_id ≡ n)
        × (Dict.get ℕ_discrete (c.objects r).fd c.conns ≡ some r)
  -- An open object in use is the one that its remote leads to.
  pub current :
      (fd r : ℕ)
      → Live c.objects c.conns fd r
      → Dict.get text_discrete (c.objects r).remote_id c.by_remote ≡ some r
  pub queued : Queued c.objects c.conns c.ready_fds
  pub sound : (r : ℕ) → IsSound (c.objects r) r
  pub bounded : c.next_fd ≤ c.fd_max
