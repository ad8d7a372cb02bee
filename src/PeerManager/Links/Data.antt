-- ===== src/PeerManager/Links/Data.antt =====
-- The steps of harness/runtime-only/harness-peer-manager.js that move data and answer callbacks,
-- and the invariant.
use dip_distributed_llm_runt.Prelude.{
  ℕ, ◌+◌, ◌≡◌, refl, ◌∙◌, Bool, true, false, List, [], ◌∷◌, ◌++◌, Option, none, some, arith, inl,
  inr, if_pos, if_neg, Option-cases, Bool-cases, ℕ_discrete, length, ltb, ◌==◌, String,
}
use dip_distributed_llm_runt.PeerManager.{
  Manager, Conn, Wake, conn_of, remote_conn, take_accepted, take_wake, run_wake, drain, write, say,
  received,
}
use dip_distributed_llm_runt.PeerManager.Api.{
  push_bytes, handle_data, handle_accepted, recv, register_buf,
}
use dip_distributed_llm_runt.PeerManager.Drain.{total}
use dip_distributed_llm_runt.PeerManager.Drain.Flow.{drain_queue-total}
use dip_distributed_llm_runt.PeerManager.Links.{Core, core, IsSound, IsLinked}
use dip_distributed_llm_runt.PeerManager.Links.Touch.{Touches, Touches-IsLinked}

pub write-Touches :
    (r : ℕ) (c : Conn) (s : Manager)
    → IsLinked (core s)
    → c.fd ≡ (s.objects r).fd
    → c.remote_id ≡ (s.objects r).remote_id
    → c.closed ≡ (s.objects r).closed
    → IsSound c r
    → Touches (core s) (core (write r c s))
write-Touches r c s v fd remote closed sound = record {
  next_ref = refl;
  fd_max = refl;
  next_fd = refl;
  conns = refl;
  by_remote = refl;
  ready_fds = refl;
  same = λ q. ground arith;
  sound = λ q. elim (ℕ_discrete q r) [
    | yes e ↦ rw (if_pos _ e) (rw e sound)
    | no ne ↦ rw (if_neg _ ne) (v.sound q)
  ];
}

Touches-trans : {s t u : Core} → Touches s t → Touches t u → Touches s u
Touches-trans d e = record {
  next_ref = e.next_ref ∙ d.next_ref;
  fd_max = e.fd_max ∙ d.fd_max;
  next_fd = e.next_fd ∙ d.next_fd;
  conns = e.conns ∙ d.conns;
  by_remote = e.by_remote ∙ d.by_remote;
  ready_fds = e.ready_fds ∙ d.ready_fds;
  same = λ q. ground (arith, d.same q, e.same q);
  sound = e.sound;
}

module _ (r : ℕ) (s : Manager) (v : IsLinked (core s)) where
  with_wake_IsSound :
      (w : Option Wake)
      → ((s.objects r).closed ≡ true → w ≡ none)
      → ((x : Wake) → w ≡ some x → (x.conn ≡ r) × (x.fd ≡ (s.objects r).fd))
      → IsSound (record (s.objects r) { wake = w }) r
  with_wake_IsSound w idle own = record {
    quiet = λ e. ground (arith, (v.sound r).quiet e, idle e);
    counted = (v.sound r).counted;
    owns_wake = own;
    owns_accepted = (v.sound r).owns_accepted;
  }

  pub take_accepted-Touches : (b : Bool) → Touches (core s) (core (take_accepted r b s))
  unfolding take_accepted
  take_accepted-Touches b = elim (Option-cases (s.objects r).accepted) [
    | inl e ↦ rw (e, take_accepted) done
    | inr (a, e) ↦ rw (e, take_accepted) done
  ]
    where
      done : Touches (core s) (core (write r (record (s.objects r) { accepted = none }) s))
      done = write-Touches r _ s v refl refl refl (record {
        quiet = λ e. ground (arith, (v.sound r).quiet e);
        counted = (v.sound r).counted;
        owns_wake = (v.sound r).owns_wake;
        owns_accepted = λ a e. cc;
      })

  pub drain-Touches :
      (len k : ℕ) → (s.objects r).closed ≡ false → Touches (core s) (core (drain r len k s).1)
  unfolding drain
  drain-Touches len k e = write-Touches r _ s v refl refl refl (record {
    quiet = λ h. cc;
    counted = omega (arith, drain_queue-total (s.objects r).queue len, (v.sound r).counted);
    owns_wake = (v.sound r).owns_wake;
    owns_accepted = (v.sound r).owns_accepted;
  })

  untouched : Touches (core s) (core s)
  untouched = record {
    next_ref = refl;
    fd_max = refl;
    next_fd = refl;
    conns = refl;
    by_remote = refl;
    ready_fds = refl;
    same = λ q. (refl, refl, refl);
    sound = v.sound;
  }

-- A wake-up answers false, or drains its own open connection and answers true.
pub run_wake_cases {ℓ} :
    (P : Manager → Type ℓ) (w : Wake) (s : Manager)
    → P (say (received w.callback false) s)
    → ((s.objects w.conn).closed ≡ false
        → P (say (received w.callback true) (drain w.conn w.len w.callback s).1))
    → P (run_wake w s)
unfolding run_wake
run_wake_cases P w s gone live = elim (Option-cases (conn_of w.fd s)) [
  | inl e ↦ rw (e, run_wake) gone
  | inr (r, e) ↦
      rw (e, run_wake)
        (elim (ℕ_discrete r w.conn) [
          | yes p ↦ rw (if_pos _ p) (elim (Bool-cases (s.objects w.conn).closed) [
            | inl c ↦ rw c gone
            | inr c ↦ rw c (live c)
          ])
          | no p ↦ rw (if_neg _ p) gone
        ])
]

run_wake-Touches :
    (w : Wake) (s : Manager) → IsLinked (core s) → Touches (core s) (core (run_wake w s))
run_wake-Touches w s v =
    run_wake_cases (λ t. Touches (core s) (core t)) w s (untouched 0 s v)
      (drain-Touches w.conn s v w.len w.callback)

pub take_wake-Touches :
    (r : ℕ) (s : Manager) → IsLinked (core s) → Touches (core s) (core (take_wake r s))
unfolding take_wake
take_wake-Touches r s v = elim (Option-cases (s.objects r).wake) [
  | inl e ↦ rw (e, take_wake) quiet
  | inr (w, e) ↦
      rw (e, take_wake) (Touches-trans quiet (run_wake-Touches w _ (Touches-IsLinked v quiet)))
]
  where
    quiet : Touches (core s) (core (write r (record (s.objects r) { wake = none }) s))
    quiet =
        write-Touches r _ s v refl refl refl (with_wake_IsSound r s v none (λ _. refl) (λ w e. cc))

total-append : (q : List (List ℕ)) (b : List ℕ) → total (q ++ b ∷ []) ≡ total q + length b
total-append [] b = omega arith
total-append (c ∷ q) b = omega (arith, total-append q b)

pub push_bytes-Touches :
    (r : ℕ) (bytes : List ℕ) (s : Manager)
    → IsLinked (core s)
    → (s.objects r).closed ≡ false
    → Touches (core s) (core (push_bytes r bytes s))
unfolding push_bytes
push_bytes-Touches r bytes s v e = write-Touches r _ s v refl refl refl (record {
  quiet = λ h. cc;
  counted = omega (arith, total-append (s.objects r).queue bytes, (v.sound r).counted);
  owns_wake = (v.sound r).owns_wake;
  owns_accepted = (v.sound r).owns_accepted;
})

pub handle_data-Touches :
    (n : String) (bytes : List ℕ) (s : Manager)
    → IsLinked (core s)
    → Touches (core s) (core (handle_data n bytes s))
unfolding handle_data
handle_data-Touches n bytes s v = elim (Option-cases (remote_conn n s)) [
  | inl e ↦ rw (e, handle_data) (untouched 0 s v)
  | inr (r, e) ↦
      rw (e, handle_data)
        (elim (Bool-cases (length bytes == 0)) [
          | inl z ↦ rw z (untouched 0 s v)
          | inr z ↦
              (let pushed = push_bytes-Touches r bytes s v (v.remote n r e).0 in
                rw z (Touches-trans pushed (take_wake-Touches r _ (Touches-IsLinked v pushed))))
        ])
]

pub handle_accepted-Touches :
    (n : String) (s : Manager) → IsLinked (core s) → Touches (core s) (core (handle_accepted n s))
unfolding handle_accepted
handle_accepted-Touches n s v = elim (Option-cases (remote_conn n s)) [
  | inl e ↦ rw (e, handle_accepted) (untouched 0 s v)
  | inr (r, e) ↦ rw (e, handle_accepted) (take_accepted-Touches r s v true)
]

pub register_buf-Touches :
    (fd ptr : ℕ) (s : Manager) → IsLinked (core s) → Touches (core s) (core (register_buf fd ptr s))
unfolding register_buf
register_buf-Touches fd ptr s v = elim (Option-cases (conn_of fd s)) [
  | inl e ↦ rw (e, register_buf) (untouched 0 s v)
  | inr (r, e) ↦
      rw (e, register_buf)
        (write-Touches r _ s v refl refl refl (record {
          quiet = (v.sound r).quiet;
          counted = (v.sound r).counted;
          owns_wake = (v.sound r).owns_wake;
          owns_accepted = (v.sound r).owns_accepted;
        }))
]

pub recv-Touches :
    (fd len done : ℕ) (s : Manager)
    → IsLinked (core s)
    → Touches (core s) (core (recv fd len done s))
unfolding recv
recv-Touches fd len done s v = elim (Option-cases (conn_of fd s)) [
  | inl e ↦ rw (e, recv) (untouched 0 s v)
  | inr (r, e) ↦
      rw (e, recv)
        (elim (Bool-cases (s.objects r).closed) [
          | inl c ↦ rw c (untouched 0 s v)
          | inr c ↦
              (let drained = drain-Touches r s v len done c in
                let t = (drain r len done s).1 in
                rw c (elim (Bool-cases (ltb 0 (drain r len done s).0)) [
                  | inl z ↦ rw z drained
                  | inr z ↦ rw z (
                      Touches-trans drained (
                        write-Touches r _ t (Touches-IsLinked v drained) refl refl refl (
                          with_wake_IsSound r t (Touches-IsLinked v drained) _
                            (λ h. cc (c, h, (drained.same r).2))
                            (λ x h. ground (arith, (v.reserved fd r e), drained.same r)))))
                ]))
        ])
]
