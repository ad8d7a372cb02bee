-- ===== src/PeerManager/Links/Release.antt =====
-- `close_connection` and `close` of harness/runtime-only/harness-peer-manager.js and the
-- invariant.
use dip_distributed_llm_runt.Prelude.{
  ℕ, ◌≡◌, true, List, [], ◌∷◌, some, arith, inl, inr, Option-cases, Bool-cases, ℕ_discrete, All,
}
use dip_distributed_llm_runt.Prelude.Dict
use dip_distributed_llm_runt.PeerManager.{Manager, conn_of, tombstone, post, Kind}
use dip_distributed_llm_runt.PeerManager.Api.{close_connection, close, tombstone_all}
use dip_distributed_llm_runt.PeerManager.Tombstone.{tombstone-open, tombstone-closed, Keeps}
use dip_distributed_llm_runt.PeerManager.Links.{core, Live, Queued, IsLinked}
use dip_distributed_llm_runt.PeerManager.Links.Bury.{tombstone-IsLinked}

module _ (fd r : ℕ) (s : Manager) (v : IsLinked (core s)) (held : conn_of fd s ≡ some r)
    (closed : (s.objects r).closed ≡ true) where
  release-Live :
      (k q : ℕ)
      → Live s.objects s.conns k q
      → Live s.objects (Dict.delete ℕ_discrete fd s.conns) k q
  release-Live k q h = ground (arith, Dict.get-delete ℕ_discrete k fd s.conns)

  release-Queued :
      (fds : List ℕ)
      → Queued s.objects s.conns fds
      → Queued s.objects (Dict.delete ℕ_discrete fd s.conns) fds
  release-Queued [] h = tt
  release-Queued (k ∷ fds) ((q, live), absent, rest) =
      ((q, release-Live k q live), absent, release-Queued fds rest)

  -- The fd of a closed connection can go.
  release : IsLinked (core (record s { conns = Dict.delete ℕ_discrete fd s.conns }))
  release = record {
    reserved = λ k q h. ground (arith, Dict.get-delete ℕ_discrete k fd s.conns, v.reserved k q);
    remote = λ n q h.
        let (live, same, back) = v.remote n q h in
        (live, same, (release-Live (s.objects q).fd q (back, live)).0);
    current = λ k q h. ground (arith, Dict.get-delete ℕ_discrete k fd s.conns, v.current k q);
    queued = release-Queued s.ready_fds v.queued;
    sound = v.sound;
    bounded = v.bounded;
  }

-- A tombstone closes its object, and no object is ever reopened.
pub tombstone-closes :
    (r q : ℕ) (s : Manager)
    → IsLinked (core s)
    → Keeps s (tombstone r s)
      × (((tombstone r s).objects r).closed ≡ true)
      × ((s.objects q).closed ≡ true → ((tombstone r s).objects q).closed ≡ true)
tombstone-closes r q s v = elim (Bool-cases (s.objects r).closed) [
  | inl e ↦ rw (tombstone-closed r s e) (ground arith, e, λ h. h)
  | inr e ↦
      let d = tombstone-open r s e (v.sound r).owns_wake in
      (d.kept, ground (arith, d.objects r), λ h. ground (arith, d.objects q))
]

pub close_connection-IsLinked :
    (fd : ℕ) (s : Manager) → IsLinked (core s) → IsLinked (core (close_connection fd s).1)
unfolding close_connection
close_connection-IsLinked fd s v = elim (Option-cases (conn_of fd s)) [
  | inl e ↦ rw (e, close_connection) v
  | inr (r, e) ↦
      rw (e, close_connection)
        (elim (Bool-cases (s.objects r).closed) [
          | inl c ↦ rw c (release fd r s v e c)
          | inr c ↦
              (let told = post (s.objects r).remote_id Kind.close s in
                let (kept, done, _) = tombstone-closes r r told v in
                rw c (
                  release fd r (tombstone r told) (tombstone-IsLinked r told v) (rw kept.conns e)
                    done))
        ])
]

abbrev pub ClosedIn : Manager → ℕ → Type 0
ClosedIn s r = (s.objects r).closed ≡ true

tombstone_all-keeps_closed :
    (rs : List ℕ) (q : ℕ) (s : Manager)
    → IsLinked (core s)
    → ClosedIn s q
    → ClosedIn (tombstone_all rs s) q
unfolding tombstone_all
tombstone_all-keeps_closed [] q s v h = h
tombstone_all-keeps_closed (r ∷ rs) q s v h =
    tombstone_all-keeps_closed rs q (tombstone r s) (tombstone-IsLinked r s v)
      ((tombstone-closes r q s v).2 h)

tombstone_all-Keeps : (rs : List ℕ) (s : Manager) → IsLinked (core s) → Keeps s (tombstone_all rs s)
unfolding tombstone_all
tombstone_all-Keeps [] s v = ground arith
tombstone_all-Keeps (r ∷ rs) s v = ground (
  arith,
  (tombstone-closes r r s v).0,
  tombstone_all-Keeps rs (tombstone r s) (tombstone-IsLinked r s v),
)

tombstone_all-IsLinked :
    (rs : List ℕ) (s : Manager) → IsLinked (core s) → IsLinked (core (tombstone_all rs s))
unfolding tombstone_all
tombstone_all-IsLinked [] s v = v
tombstone_all-IsLinked (r ∷ rs) s v =
    tombstone_all-IsLinked rs (tombstone r s) (tombstone-IsLinked r s v)

tombstone_all-closes :
    (rs : List ℕ) (s : Manager) → IsLinked (core s) → All (ClosedIn (tombstone_all rs s)) rs
unfolding tombstone_all
tombstone_all-closes [] s v = tt
tombstone_all-closes (r ∷ rs) s v = (
  tombstone_all-keeps_closed rs r (tombstone r s) (tombstone-IsLinked r s v)
      (tombstone-closes r r s v).1,
  tombstone_all-closes rs (tombstone r s) (tombstone-IsLinked r s v),
)

closes_all :
    (s : Manager)
    → IsLinked (core s)
    → (fd r : ℕ) → conn_of fd s ≡ some r
    → ClosedIn (tombstone_all (Dict.values s.conns) s) r
closes_all s v fd r e =
    Dict.All-get ℕ_discrete (ClosedIn (tombstone_all (Dict.values s.conns) s)) fd r s.conns
      (tombstone_all-closes (Dict.values s.conns) s v) e

-- In a state where the tables agree, `close()` keeps every fd reserved and every parked accept, and leaves
-- the connection of each reserved fd closed.
pub close_lem :
    (s : Manager) (fd r : ℕ)
    → IsLinked (core s)
    → conn_of fd s ≡ some r
    → ((close s).conns ≡ s.conns)
      × ((close s).accept_waiters ≡ s.accept_waiters)
      × (((close s).objects r).closed ≡ true)
unfolding close
close_lem s fd r v e =
    let k = tombstone_all-Keeps (Dict.values s.conns) s v in
    (k.conns, k.accept_waiters, closes_all s v fd r e)

pub close-IsLinked : (s : Manager) → IsLinked (core s) → IsLinked (core (close s))
unfolding close Dict.get
close-IsLinked s v =
    let k = tombstone_all-Keeps (Dict.values s.conns) s v in
    let w = tombstone_all-IsLinked (Dict.values s.conns) s v in
    record {
      reserved = w.reserved;
      remote = λ n q h. absurd (cc h);
      current = λ fd q h. absurd (cc (h.1, closes_all s v fd q (rw k.conns at h.0)));
      queued = tt;
      sound = w.sound;
      bounded = w.bounded;
    }
