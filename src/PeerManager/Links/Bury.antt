-- ===== src/PeerManager/Links/Bury.antt =====
-- `tombstone` of harness/runtime-only/harness-peer-manager.js and the invariant.
use dip_distributed_llm_runt.Prelude.{
  ℕ, ◌≡◌, ◌≢◌, refl, false, List, [], ◌∷◌, some, String, arith, subst, inl, inr, if_pos, if_neg,
  Bool-cases, ℕ_discrete, text_discrete,
}
use dip_distributed_llm_runt.Prelude.Dict
use dip_distributed_llm_runt.PeerManager.{Manager, Conn, remove_first, silence, tombstone}
use dip_distributed_llm_runt.PeerManager.Tombstone.{
  Tombstoned, tombstone-open, tombstone-closed, buried,
}
use dip_distributed_llm_runt.PeerManager.Links.{core, Absent, Live, Queued, IsSound, IsLinked}

-- An object that is in the map under its remote is the only one there, so `silence` takes out it alone.
silence-remote :
    (r : ℕ) (s : Manager)
    → IsLinked (core s)
    → (n : String) (q : ℕ) → Dict.get text_discrete n (silence r s).by_remote ≡ some q
    → (Dict.get text_discrete n s.by_remote ≡ some q) × (q ≢ r)
unfolding silence
silence-remote r s v n q h =
    grind (arith, Dict.get-delete text_discrete n (s.objects r).remote_id s.by_remote, v.remote)

silence-current :
    (r : ℕ) (s : Manager) (n : String) (q : ℕ)
    → Dict.get text_discrete n s.by_remote ≡ some q
    → q ≢ r
    → Dict.get text_discrete n (silence r s).by_remote ≡ some q
unfolding silence
silence-current r s n q h ne =
    grind (arith, Dict.get-delete text_discrete n (s.objects r).remote_id s.by_remote)

buried-IsSound : (c : Conn) (r : ℕ) → IsSound (buried c) r
buried-IsSound c r = record {
  quiet = λ _. (refl, refl, refl, refl);
  counted = refl;
  owns_wake = λ w e. cc;
  owns_accepted = λ a e. cc;
}

Absent-remove_first : (x y : ℕ) (ys : List ℕ) → Absent x ys → Absent x (remove_first y ys)
unfolding remove_first
Absent-remove_first x y [] h = tt
Absent-remove_first x y (z ∷ zs) h = ground (arith, Absent-remove_first x y zs h.1)

module _ (r : ℕ) (s t : Manager) (v : IsLinked (core s)) (d : Tombstoned r s t) where
  -- An fd that is not the buried object's stays live.
  bury-Live :
      (fd q : ℕ) → fd ≢ (s.objects r).fd → Live s.objects s.conns fd q → Live t.objects t.conns fd q
  bury-Live fd q ne h = ground (arith, v.reserved fd q, d.objects q, d.kept)

  bury-others :
      (fds : List ℕ)
      → Absent (s.objects r).fd fds
      → Queued s.objects s.conns fds
      → Queued t.objects t.conns fds
  bury-others [] a h = tt
  bury-others (fd ∷ fds) a ((q, live), absent, rest) =
      ((q, bury-Live fd q a.0 live), absent, bury-others fds a.1 rest)

  bury-Queued :
      (fds : List ℕ)
      → Queued s.objects s.conns fds
      → Queued t.objects t.conns (remove_first (s.objects r).fd fds)
  unfolding remove_first
  bury-Queued [] h = tt
  bury-Queued (fd ∷ fds) ((q, live), absent, rest) = elim (ℕ_discrete fd (s.objects r).fd) [
    | yes e ↦ rw (if_pos _ e) (bury-others fds (subst (λ x. Absent x fds) e absent) rest)
    | no ne ↦ rw (if_neg _ ne) (
      (q, bury-Live fd q ne live),
      Absent-remove_first fd (s.objects r).fd fds absent,
      bury-Queued fds rest,
    )
  ]

  bury-remote :
      (n : String) (q : ℕ)
      → Dict.get text_discrete n t.by_remote ≡ some q
      → ((t.objects q).closed ≡ false)
        × ((t.objects q).remote_id ≡ n)
        × (Dict.get ℕ_discrete (t.objects q).fd t.conns ≡ some q)
  bury-remote n q h =
      ground
        (arith, silence-remote r s v n q (rw d.by_remote at h), v.remote n q, d.objects q, d.kept)

  bury-current :
      (fd q : ℕ)
      → Live t.objects t.conns fd q
      → Dict.get text_discrete (t.objects q).remote_id t.by_remote ≡ some q
  bury-current fd q h = rw d.by_remote (
      ground
        (arith, d.objects q, d.kept, v.current fd q, silence-current r s (s.objects q).remote_id q))

  bury-IsSound : (q : ℕ) → IsSound (t.objects q) q
  bury-IsSound q = rw (d.objects q) (elim (ℕ_discrete q r) [
    | yes e ↦ rw (if_pos _ e) (buried-IsSound (s.objects r) q)
    | no ne ↦ rw (if_neg _ ne) (v.sound q)
  ])

  bury-IsLinked : IsLinked (core t)
  bury-IsLinked = record {
    reserved = λ fd q h. ground (arith, v.reserved fd q, d.objects q, d.kept);
    remote = bury-remote;
    current = bury-current;
    queued = rw d.ready_fds (bury-Queued s.ready_fds v.queued);
    sound = bury-IsSound;
    bounded = ground (arith, d.kept, v.bounded);
  }

pub tombstone-IsLinked : (r : ℕ) (s : Manager) → IsLinked (core s) → IsLinked (core (tombstone r s))
tombstone-IsLinked r s v = elim (Bool-cases (s.objects r).closed) [
  | inl e ↦ rw (tombstone-closed r s e) v
  | inr e ↦ bury-IsLinked r s _ v (tombstone-open r s e (v.sound r).owns_wake)
]
