-- ===== src/PeerManager/Links/Touch.antt =====
-- The invariant of harness/runtime-only/harness-peer-manager.js under steps that change an object's
-- data or callbacks and no map.
use dip_distributed_llm_runt.Prelude.{ℕ, ◌≡◌, ◌∙◌, List, [], ◌∷◌, arith}
use dip_distributed_llm_runt.PeerManager.{Conn}
use dip_distributed_llm_runt.PeerManager.Links.{Core, Queued, IsSound, IsLinked}

pub record Touches (s t : Core) : Type 0 where
  pub next_ref : t.next_ref ≡ s.next_ref
  pub fd_max : t.fd_max ≡ s.fd_max
  pub next_fd : t.next_fd ≡ s.next_fd
  pub conns : t.conns ≡ s.conns
  pub by_remote : t.by_remote ≡ s.by_remote
  pub ready_fds : t.ready_fds ≡ s.ready_fds
  pub same :
      (q : ℕ)
      → ((t.objects q).fd ≡ (s.objects q).fd)
        × ((t.objects q).remote_id ≡ (s.objects q).remote_id)
        × ((t.objects q).closed ≡ (s.objects q).closed)
  pub sound : (q : ℕ) → IsSound (t.objects q) q

Queued-same :
    (objects objects' : ℕ → Conn) (conns : List (ℕ × ℕ))
    → ((q : ℕ) → (objects' q).closed ≡ (objects q).closed)
    → (fds : List ℕ) → Queued objects conns fds
    → Queued objects' conns fds
Queued-same objects objects' conns e [] h = tt
Queued-same objects objects' conns e (fd ∷ fds) ((q, live), absent, rest) =
    ((q, (live.0, e q ∙ live.1)), absent, Queued-same objects objects' conns e fds rest)

pub Touches-IsLinked : {s t : Core} → IsLinked s → Touches s t → IsLinked t
Touches-IsLinked {s} {t} v d = record {
  reserved = λ fd r h. ground (arith, v.reserved fd r, d.same r);
  remote = λ n r h. ground (arith, v.remote n r, d.same r);
  current = λ fd r h. ground (arith, v.current fd r, d.same r);
  queued =
      rw (d.ready_fds, d.conns)
        (Queued-same s.objects t.objects s.conns (λ q. (d.same q).2) s.ready_fds v.queued);
  sound = d.sound;
  bounded = ground (arith, d.fd_max, d.next_fd, v.bounded);
}
