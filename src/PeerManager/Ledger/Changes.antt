-- ===== src/PeerManager/Ledger/Changes.antt =====
-- Each call of harness/runtime-only/harness-peer-manager.js as a change of the fd map and its counters.
use dip_distributed_llm_runt.Prelude.{
  ℕ, ◌≡◌, refl, ◌∙◌, sym, none, some, arith, ap, subst, String, inl, inr, Option-cases, Bool-cases,
  ite-cases, ℕ_discrete, text_discrete,
}
use dip_distributed_llm_runt.Prelude.Dict
use dip_distributed_llm_runt.Prelude.Dict.{Dict}
use dip_distributed_llm_runt.PeerManager.{Manager, bump, conn_of, new_fd, post, Kind}
use dip_distributed_llm_runt.PeerManager.Api.{
  open_conn, drop_previous, create_conn, pair_up, handle_connect, dispatch, on_message, connect,
  accept, close_connection, Op, connects, accepts, sends, receives, closes_fd, registers, closes,
  hears, apply,
}
use dip_distributed_llm_runt.PeerManager.Tombstone.{tombstone-Keeps}
use dip_distributed_llm_runt.PeerManager.Fds.{new_fd-keeps, new_fd_free}
use dip_distributed_llm_runt.PeerManager.Ledger.{
  Ledger, ledger, Same, drop_previous-Same, pair_up-Same, accept_loop-Same, handle_data-Same,
  handle_accepted-Same, handle_close-Same, send-Same, recv-Same, register_buf-Same, close-Same,
}

-- What one call does to the maps: nothing, or a new connection on a free fd, or, for
-- `close_connection` alone, the release of its fd.
pub data Change (op : Op) (l m : Ledger) : Type 0 where
  same : m ≡ l → Change op l m
  opens :
      (fd r : ℕ)
      → Dict.get ℕ_discrete fd l.conns ≡ none
      → m ≡ record {
        conns = Dict.set ℕ_discrete fd r l.conns;
        opened = bump fd l.opened;
        released = l.released;
      }
      → Change op l m
  releases :
      (fd r : ℕ)
      → op ≡ closes_fd fd
      → Dict.get ℕ_discrete fd l.conns ≡ some r
      → m ≡ record {
        conns = Dict.delete ℕ_discrete fd l.conns;
        opened = l.opened;
        released = bump fd l.released;
      }
      → Change op l m

new_fd-Same : (s : Manager) → Same s (new_fd s).1
new_fd-Same s = let (_, _, e) = new_fd-keeps s in rw e

create_conn-opens :
    (op : Op) (fd : ℕ) (n : String) (s : Manager)
    → conn_of fd s ≡ none
    → Change op (ledger s) (ledger (create_conn fd n s))
unfolding create_conn open_conn
create_conn-opens op fd n s free =
    let d = drop_previous n s in
    let e : ledger d ≡ ledger s = drop_previous-Same n s in opens fd d.next_ref free (ground arith)

handle_connect-Change :
    (op : Op) (n : String) (s : Manager) → Change op (ledger s) (ledger (handle_connect n s))
unfolding handle_connect
handle_connect-Change op n s = elim (Option-cases (new_fd s).0) [
  | inl e ↦ rw (e, handle_connect) (same (new_fd-Same s))
  | inr (fd, e) ↦
      (let s' = (new_fd s).1 in
        let t = create_conn fd n s' in
        let e' : ledger s' ≡ ledger s = new_fd-Same s in
        let free : conn_of fd s' ≡ none =
          ap (λ l. Dict.get ℕ_discrete fd l.conns) e' ∙ (new_fd_free s fd e).1 in
        rw (e, handle_connect)
          (subst (λ l. Change op l (ledger (pair_up fd t.accept_waiters t))) e'
            (subst (λ l. Change op (ledger s') l) (sym (pair_up-Same fd t.accept_waiters t))
              (create_conn-opens op fd n s' free))))
]

connect-Change :
    (op : Op) (n : String) (done : ℕ) (s : Manager)
    → Change op (ledger s) (ledger (connect n done s))
unfolding connect
connect-Change op n done s = elim (Option-cases (new_fd s).0) [
  | inl e ↦ rw (e, connect) (same (new_fd-Same s))
  | inr (fd, e) ↦
      (let s' = (new_fd s).1 in
        let e' : ledger s' ≡ ledger s = new_fd-Same s in
        let free : conn_of fd s' ≡ none =
          ap (λ l. Dict.get ℕ_discrete fd l.conns) e' ∙ (new_fd_free s fd e).1 in
        rw (e, connect)
          (subst (λ l. Change op l (ledger (create_conn fd n s'))) e'
            (create_conn-opens op fd n s' free)))
]

dispatch-Change :
    (op : Op) (k : Kind) (n : String) (s : Manager) → Change op (ledger s) (ledger (dispatch k n s))
unfolding dispatch
dispatch-Change op Kind.connect n s = handle_connect-Change op n s
dispatch-Change op Kind.accepted n s = same (handle_accepted-Same n s)
dispatch-Change op (Kind.bytes b) n s = same (handle_data-Same n b s)
dispatch-Change op Kind.close n s = same (handle_close-Same n s)
dispatch-Change op Kind.unknown n s = same refl

close_connection-Change :
    (fd : ℕ) (s : Manager) → Change (closes_fd fd) (ledger s) (ledger (close_connection fd s).1)
unfolding close_connection
close_connection-Change fd s = elim (Option-cases (conn_of fd s)) [
  | inl e ↦ rw (e, close_connection) (same refl)
  | inr (r, e) ↦
      rw (e, close_connection)
        (elim (Bool-cases (s.objects r).closed) [
          | inl c ↦ rw c (releases fd r refl e refl)
          | inr c ↦
              (let told = post (s.objects r).remote_id Kind.close s in
                let k = tombstone-Keeps r told in rw c (releases fd r refl e (ground (arith, k))))
        ])
]

pub apply-Change : (op : Op) (s : Manager) → Change op (ledger s) (ledger (apply op s))
unfolding apply accept on_message
apply-Change (connects n done) s = connect-Change (connects n done) n done s
apply-Change (accepts done) s = same (accept_loop-Same s.ready_fds done s)
apply-Change (sends fails fd b) s = same (send-Same fails fd b s)
apply-Change (receives fd len done) s = same (recv-Same fd len done s)
apply-Change (closes_fd fd) s = close_connection-Change fd s
apply-Change (registers fd ptr) s = same (register_buf-Same fd ptr s)
apply-Change closes s = same (close-Same s)
apply-Change (hears m) s =
    ite-cases (λ t. Change (hears m) (ledger s) (ledger t)) (text_discrete m.to s.node_id)
      (λ _. dispatch-Change (hears m) m.kind m.sender s) (λ _. same refl)
