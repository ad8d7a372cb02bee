-- ===== src/PeerManager/Wire/Flow.antt =====
-- The bytes between two managers of harness/runtime-only/harness-peer-manager.js.
use dip_distributed_llm_runt.Prelude.{
  ℕ, suc, ◌≤◌, ◌≡◌, refl, ap, sym, ◌∙◌, List, [], ◌∷◌, ◌++◌, String, arith, inl, inr, Bool-cases,
  Option-cases, append_assoc, append-nil, length, drop, ◌==◌, All, if_pos,
}
use dip_distributed_llm_runt.PeerManager.{Manager, Message, remote_conn, drain}
use dip_distributed_llm_runt.PeerManager.Api.{recv, on_message, dispatch, handle_data, push_bytes}
use dip_distributed_llm_runt.PeerManager.Tombstone.{take_wake-Keeps}
use dip_distributed_llm_runt.PeerManager.Stream.{
  Carries, Touches-Carries, stream, stream-handle_data, stream-recv,
}
use dip_distributed_llm_runt.PeerManager.Links.Data.{handle_data-Touches, recv-Touches}
use dip_distributed_llm_runt.PeerManager.Wire.{
  outbox, Pair, in_flight, Move, sends, arrives, reads, hear_next, move, moves, taken, all_taken,
}
use dip_distributed_llm_runt.PeerManager.Wire.Sending.{
  IsFrame, payloads, IsPaired, line, Flows, drop_next, unmoved, send-Flows,
}

handle_data-node_id :
    (n : String) (bs : List ℕ) (s : Manager) → (handle_data n bs s).node_id ≡ s.node_id
unfolding handle_data push_bytes
handle_data-node_id n bs s = elim (Option-cases (remote_conn n s)) [
  | inl e ↦ rw (handle_data, e) refl
  | inr (r, e) ↦ elim (Bool-cases (length bs == 0)) [
    | inl z ↦ rw (handle_data, e, z) refl
    | inr z ↦ rw (handle_data, e, z) (take_wake-Keeps r (push_bytes r bs s)).node_id
  ]
]

recv-node_id : (fd len done : ℕ) (s : Manager) → (recv fd len done s).node_id ≡ s.node_id
unfolding recv drain
recv-node_id fd len done s = ground arith

module _ (a b : String) (fa ra fb rb : ℕ) where
  -- A change on the right alone that adds `new` to its stream, with `later` left under way.
  right_changes :
      (p : Pair) (t : Manager) (heard : ℕ) (now : List ℕ) (later : List Message)
      → IsPaired a b fa ra fb rb p
      → Carries a fb rb t
      → t.node_id ≡ p.right.node_id
      → drop heard (outbox p.left.log) ≡ later
      → heard ≤ length (outbox p.left.log)
      → All (IsFrame a b) later
      → stream rb t ≡ stream rb p.right ++ now
      → payloads (in_flight p) ≡ now ++ payloads later
      → Flows a b fa ra fb rb p (record p { right = t; heard = heard }) []
  right_changes p t heard now later h c named cut le frames e whole = record {
    paired = record {
      carries = c;
      left_named = h.left_named;
      right_named = named ∙ h.right_named;
      held = h.held;
      live = h.live;
      peer = h.peer;
      heard = le;
      frames = rw cut frames;
    };
    flow =
        ap (λ ms. stream rb t ++ payloads ms) cut
        ∙ ap (λ l. l ++ payloads later) e
        ∙ append_assoc (stream rb p.right) now (payloads later)
        ∙ ap (λ l. stream rb p.right ++ l) (sym whole)
        ∙ sym (append-nil (line rb p));
  }

  recv-Flows :
      (len done : ℕ) (p : Pair)
      → IsPaired a b fa ra fb rb p
      → Flows a b fa ra fb rb p (move fa fb (reads len done) p) []
  unfolding move
  recv-Flows len done p h =
      let c = h.carries in
      right_changes p (recv fb len done p.right) p.heard [] (in_flight p) h
        (Touches-Carries a fb rb p.right c (recv-Touches fb len done p.right c.linked))
        (recv-node_id fb len done p.right) refl h.heard h.frames
        (stream-recv a fb rb p.right c len done ∙ sym (append-nil (stream rb p.right))) refl

  hear-Flows :
      (p : Pair) (ms : List Message)
      → IsPaired a b fa ra fb rb p
      → in_flight p ≡ ms
      → Flows a b fa ra fb rb p (hear_next ms p) []
  unfolding hear_next on_message dispatch
  hear-Flows p [] h e = unmoved a b fa ra fb rb p h
  hear-Flows p (m ∷ ms) h e =
      let c = h.carries in
      let all : All (IsFrame a b) (m ∷ ms) = (let fs = h.frames in rw e at fs) in
      let (sender, to, bs, kind) = all.0 in
      let (left, le) = drop_next p.heard (outbox p.left.log) m ms e in
      let mine : m.to ≡ p.right.node_id = to ∙ sym h.right_named in
      let heard_as : on_message m p.right ≡ handle_data a bs p.right =
        rw (if_pos _ mine, kind, sender) refl in
      rw heard_as (
        right_changes p (handle_data a bs p.right) (suc p.heard) bs ms h
          (Touches-Carries a fb rb p.right c (handle_data-Touches a bs p.right c.linked))
          (handle_data-node_id a bs p.right) left le all.1 (stream-handle_data a fb rb p.right c bs)
          (ap payloads e ∙ rw kind refl))

  move-Flows :
      (m : Move) (p : Pair)
      → IsPaired a b fa ra fb rb p
      → Flows a b fa ra fb rb p (move fa fb m p) (taken fa m p)
  unfolding move
  move-Flows (sends fails bs) p h = send-Flows a b fa ra fb rb fails bs p h
  move-Flows arrives p h = hear-Flows p (in_flight p) h refl
  move-Flows (reads len done) p h = recv-Flows len done p h

-- A connection between two managers is a first-in first-out byte stream. However sends on the left, arrivals
-- and reads on the right interleave, and whichever sends fail, the bytes given to writeCB on the right, those
-- queued there and those under way are together those of before, followed by the bytes that the results of
-- `send` say it took, as many of each buffer's front as it returned, in their order. The transport delivers in
-- order, the connection is open on both sides, and nothing but data frames of the left manager was under way.
pub moves-line :
    (a b : String) (fa ra fb rb : ℕ) (ms : List Move) (p : Pair)
    → IsPaired a b fa ra fb rb p
    → line rb (moves fa fb ms p) ≡ line rb p ++ all_taken fa fb ms p
unfolding moves all_taken
moves-line a b fa ra fb rb [] p h = sym (append-nil (line rb p))
moves-line a b fa ra fb rb (m ∷ ms) p h =
    let step = move-Flows a b fa ra fb rb m p h in
    let after = move fa fb m p in
    moves-line a b fa ra fb rb ms after step.paired
    ∙ ap (λ l. l ++ all_taken fa fb ms after) step.flow
    ∙ append_assoc (line rb p) (taken fa m p) (all_taken fa fb ms after)
