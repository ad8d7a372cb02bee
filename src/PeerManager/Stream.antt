-- ===== src/PeerManager/Stream.antt =====
-- The bytes of one connection through harness/runtime-only/harness-peer-manager.js: what `handleData`
-- queues and `recv` hands to writeCB.
use dip_distributed_llm_runt.Prelude.{
  ℕ, ◌≡◌, refl, ◌∙◌, sym, ap, true, List, [], ◌∷◌, ◌++◌, none, some, String, arith, inl, inr,
  Option-cases, Bool-cases, append_assoc, append-nil, length, ◌==◌,
}
use dip_distributed_llm_runt.PeerManager.{
  Manager, Output, Wake, conn_of, remote_conn, write_all, wrote, drain, run_wake, take_wake, write,
  received, emitted, posted, answered,
}
use dip_distributed_llm_runt.PeerManager.Api.{push_bytes, handle_data, recv}
use dip_distributed_llm_runt.PeerManager.Drain.{drain_queue, flat}
use dip_distributed_llm_runt.PeerManager.Drain.Flow.{drain_queue-flat}
use dip_distributed_llm_runt.PeerManager.Links.{core, IsLinked}
use dip_distributed_llm_runt.PeerManager.Links.Touch.{Touches, Touches-IsLinked}
use dip_distributed_llm_runt.PeerManager.Links.Data.{
  run_wake_cases, push_bytes-Touches, handle_data-Touches, recv-Touches,
}

-- The bytes given to writeCB so far, in order. The log is newest first.
unfoldable pub delivered : List Output → List ℕ
delivered [] = []
delivered (wrote k w ∷ log) = delivered log ++ w
delivered (emitted e ∷ log) = delivered log
delivered (posted m ∷ log) = delivered log
delivered (answered k fd ∷ log) = delivered log
delivered (received k b ∷ log) = delivered log

-- Delivered, and then still queued on the object `r`.
abbrev pub stream : ℕ → Manager → List ℕ
stream r s = delivered s.log ++ flat (s.objects r).queue

delivered-write_all :
    (k : ℕ) (ws : List (List ℕ)) (log : List Output)
    → delivered (write_all k ws log) ≡ delivered log ++ flat ws
unfolding write_all delivered
delivered-write_all k [] log = sym (append-nil (delivered log))
delivered-write_all k (w ∷ ws) log =
    delivered-write_all k ws (wrote k w ∷ log) ∙ append_assoc (delivered log) w (flat ws)

stream-drain : (r len k : ℕ) (s : Manager) → stream r (drain r len k s).1 ≡ stream r s
unfolding drain
stream-drain r len k s =
    let d = drain_queue (s.objects r).queue len in
    ground (
      arith,
      delivered-write_all k d.writes s.log,
      append_assoc (delivered s.log) (flat d.writes) (flat d.rest),
      drain_queue-flat (s.objects r).queue len,
    )

stream-run_wake :
    (r : ℕ) (w : Wake) (s : Manager) → w.conn ≡ r → stream r (run_wake w s) ≡ stream r s
unfolding delivered
stream-run_wake r w s e =
    run_wake_cases (λ t. stream r t ≡ stream r s) w s refl
      (λ _. rw e (stream-drain r w.len w.callback s))

stream-take_wake : (r : ℕ) (s : Manager) → IsLinked (core s) → stream r (take_wake r s) ≡ stream r s
unfolding take_wake
stream-take_wake r s v = elim (Option-cases (s.objects r).wake) [
  | inl e ↦ rw (e, take_wake) (ground arith)
  | inr (w, e) ↦
      rw (e, take_wake)
        (stream-run_wake r w (write r (record (s.objects r) { wake = none }) s)
            ((v.sound r).owns_wake w e).0
          ∙ ground arith)
]

flat-append : (q : List (List ℕ)) (b : List ℕ) → flat (q ++ b ∷ []) ≡ flat q ++ b
flat-append [] b = append-nil b
flat-append (c ∷ q) b = ap (◌++◌ c) (flat-append q b) ∙ sym (append_assoc c (flat q) b)

stream-push_bytes :
    (r : ℕ) (b : List ℕ) (s : Manager) → stream r (push_bytes r b s) ≡ stream r s ++ b
unfolding push_bytes
stream-push_bytes r b s = ground (
  arith,
  flat-append (s.objects r).queue b,
  append_assoc (delivered s.log) (flat (s.objects r).queue) b,
)

pub nil_of_length : (b : List ℕ) → (length b == 0) ≡ true → b ≡ []
nil_of_length [] e = refl
nil_of_length (x ∷ b) e = ground arith

-- A connection that carries data: `fd` and the remote `n` both lead to the object `r`.
pub record Carries (n : String) (fd r : ℕ) (s : Manager) : Type 0 where
  pub linked : IsLinked (core s)
  pub remote : remote_conn n s ≡ some r
  pub held : conn_of fd s ≡ some r

module _ (n : String) (fd r : ℕ) (s : Manager) (c : Carries n fd r s) where
  pub Touches-Carries : {t : Manager} → Touches (core s) (core t) → Carries n fd r t
  Touches-Carries d = record {
    linked = Touches-IsLinked c.linked d;
    remote = rw d.by_remote c.remote;
    held = rw d.conns c.held;
  }

  pub stream-handle_data : (b : List ℕ) → stream r (handle_data n b s) ≡ stream r s ++ b
  unfolding handle_data
  stream-handle_data b =
      rw (c.remote, handle_data)
        (elim (Bool-cases (length b == 0)) [
          | inl z ↦ rw (z, nil_of_length b z) (sym (append-nil (stream r s)))
          | inr z ↦
              (let pushed = push_bytes-Touches r b s c.linked (c.linked.remote n r c.remote).0 in
                rw z (
                  stream-take_wake r (push_bytes r b s) (Touches-IsLinked c.linked pushed)
                  ∙ stream-push_bytes r b s))
        ])

  pub stream-recv : (len done : ℕ) → stream r (recv fd len done s) ≡ stream r s
  unfolding recv delivered
  stream-recv len done =
      rw (c.held, recv)
        (ground (arith, (c.linked.remote n r c.remote).0, stream-drain r len done s))

-- What happens to an open connection: a data frame comes in, or the Runtime reads.
pub data Traffic : Type 0 where
  arrives : List ℕ → Traffic
  reads : (len done : ℕ) → Traffic

unfoldable pub carry : String → ℕ → List Traffic → Manager → Manager
carry n fd [] s = s
carry n fd (arrives b ∷ more) s = carry n fd more (handle_data n b s)
carry n fd (reads len done ∷ more) s = carry n fd more (recv fd len done s)

unfoldable pub arrived : List Traffic → List ℕ
arrived [] = []
arrived (arrives b ∷ more) = b ++ arrived more
arrived (reads len done ∷ more) = arrived more

-- A connection that its fd and its remote lead to is a first-in first-out byte stream: however data
-- frames and reads interleave, the
-- bytes given to writeCB, followed by those still queued, are the bytes that were there before,
-- followed by the bytes of the frames in the order in which they came. None is lost, made up or moved.
pub carry-stream :
    (n : String) (fd r : ℕ) (traffic : List Traffic) (s : Manager)
    → Carries n fd r s
    → stream r (carry n fd traffic s) ≡ stream r s ++ arrived traffic
unfolding carry arrived
carry-stream n fd r [] s c = sym (append-nil (stream r s))
carry-stream n fd r (arrives b ∷ more) s c =
    carry-stream n fd r more (handle_data n b s)
      (Touches-Carries n fd r s c (handle_data-Touches n b s c.linked))
    ∙ rw (stream-handle_data n fd r s c b) (append_assoc (stream r s) b (arrived more))
carry-stream n fd r (reads len done ∷ more) s c =
    carry-stream n fd r more (recv fd len done s)
      (Touches-Carries n fd r s c (recv-Touches fd len done s c.linked))
    ∙ rw (stream-recv n fd r s c len done)
