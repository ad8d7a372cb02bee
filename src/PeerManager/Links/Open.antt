-- ===== src/PeerManager/Links/Open.antt =====
-- `createConn` of harness/runtime-only/harness-peer-manager.js and the invariant, on an fd that
-- `newFd` found.
use dip_distributed_llm_runt.Prelude.{
  ℕ, ◌<◌, ◌≤◌, ◌≡◌, refl, List, [], ◌∷◌, none, some, String, arith, subst, inl, inr, if_pos, if_neg,
  Option-cases, ℕ_discrete, text_discrete,
}
use dip_distributed_llm_runt.Prelude.Dict
use dip_distributed_llm_runt.PeerManager.{Manager, new_fd, conn_of, remote_conn, silence}
use dip_distributed_llm_runt.PeerManager.Api.{open_conn, drop_previous, create_conn, fresh_conn}
use dip_distributed_llm_runt.PeerManager.Tombstone.{tombstone-open, Keeps}
use dip_distributed_llm_runt.PeerManager.Fds.{new_fd-keeps, new_fd-le}
use dip_distributed_llm_runt.PeerManager.Links.{core, Absent, Live, Queued, IsSound, IsLinked}
use dip_distributed_llm_runt.PeerManager.Links.Bury.{tombstone-IsLinked}

pub new_fd-IsLinked : (s : Manager) → IsLinked (core s) → IsLinked (core (new_fd s).1)
new_fd-IsLinked s v =
    let (next, log, e) = new_fd-keeps s in
    let b : (new_fd s).1.next_fd ≤ s.fd_max = new_fd-le s v.bounded in
    rw e (record {
      reserved = v.reserved;
      remote = v.remote;
      current = v.current;
      queued = v.queued;
      sound = v.sound;
      bounded = rw e at b;
    })

silence-gone :
    (r : ℕ) (s : Manager)
    → Dict.get text_discrete (s.objects r).remote_id s.by_remote ≡ some r
    → Dict.get text_discrete (s.objects r).remote_id (silence r s).by_remote ≡ none
unfolding silence
silence-gone r s h =
    ground (arith, Dict.get-delete_self text_discrete (s.objects r).remote_id s.by_remote)

pub drop_previous-IsLinked :
    (n : String) (s : Manager) → IsLinked (core s) → IsLinked (core (drop_previous n s))
unfolding drop_previous
drop_previous-IsLinked n s v = elim (Option-cases (remote_conn n s)) [
  | inl e ↦ rw (e, drop_previous) v
  | inr (r, e) ↦ rw (e, drop_previous) (tombstone-IsLinked r s v)
]

-- What `createConn` relies on after it has dealt with the previous connection.
pub drop_previous-Keeps :
    (n : String) (s : Manager)
    → IsLinked (core s)
    → Keeps s (drop_previous n s) × (remote_conn n (drop_previous n s) ≡ none)
unfolding drop_previous
drop_previous-Keeps n s v = elim (Option-cases (remote_conn n s)) [
  | inl e ↦ rw (e, drop_previous) (ground arith, e)
  | inr (r, e) ↦
      let (live, same, _) = v.remote n r e in
      let d = tombstone-open r s live (v.sound r).owns_wake in
      rw (e, drop_previous) (d.kept, rw d.by_remote (ground (arith, silence-gone r s)))
]

module _ (fd : ℕ) (n : String) (s : Manager) (v : IsLinked (core s)) (free : conn_of fd s ≡ none)
    (low : fd < s.fd_max) (gone : remote_conn n s ≡ none) where
  open_conn-Live :
      (k q : ℕ)
      → Live s.objects s.conns k q
      → Live (open_conn fd n s).objects (open_conn fd n s).conns k q
  unfolding open_conn
  open_conn-Live k q h =
      ground (arith, Dict.get-set ℕ_discrete k fd s.next_ref s.conns, v.reserved k q)

  open_conn-Queued :
      (fds : List ℕ)
      → Queued s.objects s.conns fds
      → Queued (open_conn fd n s).objects (open_conn fd n s).conns fds
  open_conn-Queued [] h = tt
  open_conn-Queued (k ∷ fds) ((q, live), absent, rest) =
      ((q, open_conn-Live k q live), absent, open_conn-Queued fds rest)

  fresh-IsSound : (q : ℕ) → IsSound (fresh_conn fd n) q
  fresh-IsSound q = record {
    quiet = λ e. cc;
    counted = refl;
    owns_wake = λ w e. cc;
    owns_accepted = λ a e. cc;
  }

  pub open_conn-IsLinked : IsLinked (core (open_conn fd n s))
  unfolding open_conn
  open_conn-IsLinked = record {
    reserved =
        λ k q h. ground (arith, Dict.get-set ℕ_discrete k fd s.next_ref s.conns, v.reserved k q);
    remote = λ m q h. ground (
      arith,
      Dict.get-set text_discrete m n s.next_ref s.by_remote,
      Dict.get-set ℕ_discrete (s.objects q).fd fd s.next_ref s.conns,
      Dict.get-set_self ℕ_discrete fd s.next_ref s.conns,
      v.remote m q,
      v.reserved (s.objects q).fd q,
    );
    current = λ k q h. ground (
      arith,
      Dict.get-set ℕ_discrete k fd s.next_ref s.conns,
      Dict.get-set_self text_discrete n s.next_ref s.by_remote,
      Dict.get-set text_discrete (s.objects q).remote_id n s.next_ref s.by_remote,
      v.current k q,
      v.reserved k q,
    );
    queued = open_conn-Queued s.ready_fds v.queued;
    sound = λ q. elim (ℕ_discrete q s.next_ref) [
      | yes e ↦ rw (if_pos _ e) (fresh-IsSound q)
      | no ne ↦ rw (if_neg _ ne) (v.sound q)
    ];
    bounded = v.bounded;
  }

Queued-Absent :
    (fd : ℕ) (s : Manager)
    → conn_of fd s ≡ none
    → (fds : List ℕ) → Queued s.objects s.conns fds
    → Absent fd fds
Queued-Absent fd s free [] h = tt
Queued-Absent fd s free (k ∷ fds) ((q, live), _, rest) =
    ((λ e. cc (free, live.0, e)), Queued-Absent fd s free fds rest)

-- What `createConn` sets up: a live connection on the new fd that no accept queue holds yet.
pub record Opened (fd : ℕ) (n : String) (s t : Manager) : Type 0 where
  pub linked : IsLinked (core t)
  pub live : Live t.objects t.conns fd s.next_ref
  pub absent : Absent fd t.ready_fds
  pub remote : remote_conn n t ≡ some s.next_ref
  pub object : t.objects s.next_ref ≡ fresh_conn fd n

open_conn-Opened :
    (fd : ℕ) (n : String) (s : Manager)
    → IsLinked (core s)
    → conn_of fd s ≡ none
    → fd < s.fd_max
    → remote_conn n s ≡ none
    → Opened fd n s (open_conn fd n s)
unfolding open_conn
open_conn-Opened fd n s v free low gone = record {
  linked = open_conn-IsLinked fd n s v free low gone;
  live = (Dict.get-set_self ℕ_discrete fd s.next_ref s.conns, ground arith);
  absent = Queued-Absent fd s free s.ready_fds v.queued;
  remote = Dict.get-set_self text_discrete n s.next_ref s.by_remote;
  object = ground arith;
}

pub create_conn-Opened :
    (fd : ℕ) (n : String) (s : Manager)
    → IsLinked (core s)
    → conn_of fd s ≡ none
    → fd < s.fd_max
    → Opened fd n s (create_conn fd n s)
unfolding create_conn
create_conn-Opened fd n s v free low =
    let (k, gone) = drop_previous-Keeps n s v in
    let d = drop_previous n s in
    let o =
      open_conn-Opened fd n d (drop_previous-IsLinked n s v) (rw k.conns free) (rw k.fd_max low)
        gone in
    subst (λ x. Opened fd n (record s { next_ref = x }) (open_conn fd n d)) k.next_ref
      (record {
        linked = o.linked;
        live = o.live;
        absent = o.absent;
        remote = o.remote;
        object = o.object;
      })
