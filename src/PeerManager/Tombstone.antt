-- ===== src/PeerManager/Tombstone.antt =====
-- What `tombstone` of harness/runtime-only/harness-peer-manager.js does, field by field.
use dip_distributed_llm_runt.Prelude.{
  ℕ, ◌≡◌, refl, ◌∙◌, Bool, true, false, [], none, some, Option-cases, Bool-cases, inl, inr, arith,
}
use dip_distributed_llm_runt.PeerManager.{
  Manager, Conn, Wake, update, drain, run_wake, take_wake, take_accepted, silence, tombstone,
  remove_first,
}

-- The parts of the state that the connection's end leaves alone.
pub record Keeps (s t : Manager) : Type 0 where
  pub node_id : t.node_id ≡ s.node_id
  pub fd_max : t.fd_max ≡ s.fd_max
  pub next_ref : t.next_ref ≡ s.next_ref
  pub conns : t.conns ≡ s.conns
  pub accept_waiters : t.accept_waiters ≡ s.accept_waiters
  pub connection_counts : t.connection_counts ≡ s.connection_counts
  pub accepted_counts : t.accepted_counts ≡ s.accepted_counts
  pub runtime_close_counts : t.runtime_close_counts ≡ s.runtime_close_counts
  pub registration_counts : t.registration_counts ≡ s.registration_counts
  pub next_fd : t.next_fd ≡ s.next_fd

-- An object when its tombstone is up.
abbrev pub buried : Conn → Conn
buried c = record c { closed = true; queue = []; queued_bytes = 0; wake = none; accepted = none }

pub drain-Keeps : (r len k : ℕ) (s : Manager) → Keeps s (drain r len k s).1
unfolding drain
drain-Keeps r len k s = ground arith

run_wake-Keeps : (w : Wake) (s : Manager) → Keeps s (run_wake w s)
unfolding run_wake drain
run_wake-Keeps w s = ground arith

pub take_wake-Keeps : (r : ℕ) (s : Manager) → Keeps s (take_wake r s)
unfolding take_wake run_wake drain
take_wake-Keeps r s = ground arith

pub take_accepted-Keeps : (r : ℕ) (b : Bool) (s : Manager) → Keeps s (take_accepted r b s)
unfolding take_accepted
take_accepted-Keeps r b s = ground arith

silence-Keeps : (r : ℕ) (s : Manager) → Keeps s (silence r s)
unfolding silence
silence-Keeps r s = ground arith

-- No parked recv reads another connection than its own.
abbrev pub OwnsWake : Conn → ℕ → Type 0
OwnsWake c r = (w : Wake) → c.wake ≡ some w → (w.conn ≡ r) × (w.fd ≡ c.fd)

pub take_wake-by_remote : (r : ℕ) (s : Manager) → (take_wake r s).by_remote ≡ s.by_remote
unfolding take_wake run_wake drain
take_wake-by_remote r s = ground arith

pub take_wake-ready_fds : (r : ℕ) (s : Manager) → (take_wake r s).ready_fds ≡ s.ready_fds
unfolding take_wake run_wake drain
take_wake-ready_fds r s = ground arith

pub take_accepted-by_remote :
    (r : ℕ) (b : Bool) (s : Manager) → (take_accepted r b s).by_remote ≡ s.by_remote
unfolding take_accepted
take_accepted-by_remote r b s = ground arith

pub take_accepted-ready_fds :
    (r : ℕ) (b : Bool) (s : Manager) → (take_accepted r b s).ready_fds ≡ s.ready_fds
unfolding take_accepted
take_accepted-ready_fds r b s = ground arith

pub take_accepted-objects :
    (r : ℕ) (b : Bool) (s : Manager) (q : ℕ)
    → (take_accepted r b s).objects q
      ≡ update s.objects r (record (s.objects r) { accepted = none }) q
unfolding take_accepted
take_accepted-objects r b s q = ground arith

take_wake_closed :
    (r : ℕ) (s : Manager)
    → (s.objects r).closed ≡ true
    → OwnsWake (s.objects r) r
    → (q : ℕ)
    → (take_wake r s).objects q ≡ update s.objects r (record (s.objects r) { wake = none }) q
unfolding take_wake run_wake
take_wake_closed r s closed own q = elim (Option-cases (s.objects r).wake) [
  | inl e ↦ rw (e, take_wake)
  | inr (w, e) ↦ ground (arith, own w e)
]

silence-objects :
    (r : ℕ) (s : Manager) (q : ℕ)
    → (silence r s).objects q
      ≡ update s.objects r (record (s.objects r) { closed = true; queue = []; queued_bytes = 0 }) q
unfolding silence
silence-objects r s q = refl

silence-ready_fds :
    (r : ℕ) (s : Manager) → (silence r s).ready_fds ≡ remove_first (s.objects r).fd s.ready_fds
unfolding silence
silence-ready_fds r s = refl

pub record Tombstoned (r : ℕ) (s t : Manager) : Type 0 where
  pub kept : Keeps s t
  pub objects : (q : ℕ) → t.objects q ≡ update s.objects r (buried (s.objects r)) q
  pub by_remote : t.by_remote ≡ (silence r s).by_remote
  pub ready_fds : t.ready_fds ≡ remove_first (s.objects r).fd s.ready_fds

Keeps-trans : {s t u : Manager} → Keeps s t → Keeps t u → Keeps s u
Keeps-trans k l = ground arith

bury-objects :
    (r : ℕ) (s : Manager)
    → OwnsWake (s.objects r) r
    → (q : ℕ)
    → (take_accepted r false (take_wake r (silence r s))).objects q
      ≡ update s.objects r (buried (s.objects r)) q
bury-objects r s own q = ground (
  arith,
  take_accepted-objects r false (take_wake r (silence r s)) q,
  take_wake_closed r (silence r s) (ground (arith, silence-objects r s r))
      (λ w e. ground (arith, silence-objects r s r, own w)) q,
  take_wake_closed r (silence r s) (ground (arith, silence-objects r s r))
      (λ w e. ground (arith, silence-objects r s r, own w)) r,
  silence-objects r s q,
  silence-objects r s r,
)

pub tombstone-open :
    (r : ℕ) (s : Manager)
    → (s.objects r).closed ≡ false
    → OwnsWake (s.objects r) r
    → Tombstoned r s (tombstone r s)
unfolding tombstone
tombstone-open r s open_conn own =
    rw (open_conn, tombstone)
      (record {
        kept = ground (
          arith,
          silence-Keeps r s,
          take_wake-Keeps r (silence r s),
          take_accepted-Keeps r false (take_wake r (silence r s)),
        );
        objects = bury-objects r s own;
        by_remote =
            take_accepted-by_remote r false (take_wake r (silence r s))
            ∙ take_wake-by_remote r (silence r s);
        ready_fds =
            take_accepted-ready_fds r false (take_wake r (silence r s))
            ∙ take_wake-ready_fds r (silence r s)
            ∙ silence-ready_fds r s;
      })

-- The second tombstone of an object does nothing.
pub tombstone-closed : (r : ℕ) (s : Manager) → (s.objects r).closed ≡ true → tombstone r s ≡ s
unfolding tombstone
tombstone-closed r s h = rw (h, tombstone)

pub tombstone-Keeps : (r : ℕ) (s : Manager) → Keeps s (tombstone r s)
unfolding tombstone
tombstone-Keeps r s = elim (Bool-cases (s.objects r).closed) [
  | inl e ↦ rw (e, tombstone) (ground arith)
  | inr e ↦
      rw (e, tombstone)
        (ground (
          arith,
          silence-Keeps r s,
          take_wake-Keeps r (silence r s),
          take_accepted-Keeps r false (take_wake r (silence r s)),
        ))
]
