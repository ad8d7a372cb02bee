-- ===== src/PeerManager/Wire/Sending.antt =====
-- What a send puts on the channel between two managers of harness/runtime-only/harness-peer-manager.js.
use dip_distributed_llm_runt.Prelude.{
  Option, none, ℕ, zero, suc, ◌≤◌, ◌≡◌, refl, ap, sym, ◌∙◌, Bool, false, List, [], ◌∷◌, ◌++◌, some,
  String, arith, inl, inr, Bool-cases, append_assoc, append-nil, length, length-append, take, drop,
  drop-append_le, min, ◌==◌, All,
}
use dip_distributed_llm_runt.PeerManager.{
  Manager, Message, Kind, Event, bytes, Output, posted, emitted, conn_of,
}
use dip_distributed_llm_runt.PeerManager.Api.{send_chunk_bytes, send}
use dip_distributed_llm_runt.PeerManager.Stream.{Carries, stream}
use dip_distributed_llm_runt.PeerManager.Wire.{outbox, Pair, in_flight, sends, move, said, taken}

-- A data frame from `a` to `b`.
abbrev pub IsFrame : String → String → Message → Type 0
IsFrame a b m = (m.sender ≡ a) × (m.to ≡ b) × (payload : List ℕ) × (m.kind ≡ bytes payload)

abbrev pub payload : Kind → List ℕ
payload (bytes b) = b
payload Kind.connect = []
payload Kind.accepted = []
payload Kind.close = []
payload Kind.unknown = []

abbrev pub payloads : List Message → List ℕ
payloads [] = []
payloads (m ∷ ms) = payload m.kind ++ payloads ms

-- The connection is open on both sides, and all that is under way are data frames of the left manager.
pub record IsPaired (a b : String) (fa ra fb rb : ℕ) (p : Pair) : Type 0 where
  pub carries : Carries a fb rb p.right
  pub left_named : p.left.node_id ≡ a
  pub right_named : p.right.node_id ≡ b
  pub held : conn_of fa p.left ≡ some ra
  pub live : (p.left.objects ra).closed ≡ false
  pub peer : (p.left.objects ra).remote_id ≡ b
  pub heard : p.heard ≤ length (outbox p.left.log)
  pub frames : All (IsFrame a b) (in_flight p)

-- The bytes delivered and queued on the right, followed by those under way.
abbrev pub line : ℕ → Pair → List ℕ
line rb p = stream rb p.right ++ payloads (in_flight p)

payloads-append :
    (ms : List Message) (m : Message) → payloads (ms ++ (m ∷ [])) ≡ payloads ms ++ payload m.kind
payloads-append [] m = append-nil (payload m.kind)
payloads-append (x ∷ ms) m =
    ap (λ t. payload x.kind ++ t) (payloads-append ms m)
    ∙ sym (append_assoc (payload x.kind) (payloads ms) (payload m.kind))

All-last :
    {A : Type 0} (P : A → Type 0) (xs : List A) (x : A) → All P xs → P x → All P (xs ++ (x ∷ []))
All-last P [] x h p = (p, tt)
All-last P (y ∷ ys) x (h, hs) p = (h, All-last P ys x hs p)

pub drop_next :
    (n : ℕ) (xs : List Message) (y : Message) (ys : List Message)
    → drop n xs ≡ y ∷ ys
    → (drop (suc n) xs ≡ ys) × (suc n ≤ length xs)
drop_next zero [] y ys e = absurd (cc e)
drop_next zero (x ∷ xs) y ys e = (cc e, omega arith)
drop_next (suc n) [] y ys e = absurd (cc e)
drop_next (suc n) (x ∷ xs) y ys e = let (p, q) = drop_next n xs y ys e in (p, omega (arith, q))

-- What a step does to the two ends.
pub record Flows (a b : String) (fa ra fb rb : ℕ) (p q : Pair) (new : List ℕ) : Type 0 where
  pub paired : IsPaired a b fa ra fb rb q
  pub flow : line rb q ≡ line rb p ++ new

module _ (a b : String) (fa ra fb rb : ℕ) where
  -- The left manager logs something that is no post.
  quiet :
      (p : Pair) (o : List Output)
      → IsPaired a b fa ra fb rb p
      → outbox o ≡ outbox p.left.log
      → Flows a b fa ra fb rb p (record p { left = record p.left { log = o } }) []
  quiet p o h e = record {
    paired = record {
      carries = h.carries;
      left_named = h.left_named;
      right_named = h.right_named;
      held = h.held;
      live = h.live;
      peer = h.peer;
      heard = let le = h.heard in rw e le;
      frames = let fs = h.frames in rw e fs;
    };
    flow = rw e (sym (append-nil (line rb p)));
  }

  posts :
      (p : Pair) (m : Message)
      → IsPaired a b fa ra fb rb p
      → IsFrame a b m
      → Flows a b fa ra fb rb p
          (record p { left = record p.left { log = posted m ∷ p.left.log } })
          (payload m.kind)
  unfolding outbox
  posts p m h frame =
      let split : drop p.heard (outbox p.left.log ++ (m ∷ [])) ≡ in_flight p ++ (m ∷ []) =
        drop-append_le p.heard (outbox p.left.log) (m ∷ []) h.heard in
      let grown = length-append (outbox p.left.log) (m ∷ []) in
      record {
        paired = record {
          carries = h.carries;
          left_named = h.left_named;
          right_named = h.right_named;
          held = h.held;
          live = h.live;
          peer = h.peer;
          heard = let le = h.heard in omega (arith, le, grown);
          frames = rw split (All-last (IsFrame a b) (in_flight p) m h.frames frame);
        };
        flow =
            ap (λ ms. stream rb p.right ++ payloads ms) split
            ∙ ap (λ t. stream rb p.right ++ t) (payloads-append (in_flight p) m)
            ∙ sym (append_assoc (stream rb p.right) (payloads (in_flight p)) (payload m.kind));
      }

  pub unmoved : (p : Pair) → IsPaired a b fa ra fb rb p → Flows a b fa ra fb rb p p []
  unmoved p h = record { paired = h; flow = sym (append-nil (line rb p)) }

  sends_as :
      (fails : Bool) (bs : List ℕ) (p : Pair) (answer : Option ℕ) (q : Manager)
      → send fails fa bs p.left ≡ (answer, q)
      → Flows a b fa ra fb rb p (record p { left = q }) (said answer bs)
      → Flows a b fa ra fb rb p (move fa fb (sends fails bs) p) (taken fa (sends fails bs) p)
  unfolding move
  sends_as fails bs p answer q e f = rw e f

  pub send-Flows :
      (fails : Bool) (bs : List ℕ) (p : Pair)
      → IsPaired a b fa ra fb rb p
      → Flows a b fa ra fb rb p (move fa fb (sends fails bs) p) (taken fa (sends fails bs) p)
  unfolding send outbox
  send-Flows fails bs p h = elim (Bool-cases (length bs == 0)) [
    | inl e ↦ sends_as fails bs p (some 0) p.left (rw (send, h.held, h.live, e) refl) (unmoved p h)
    | inr e ↦ elim (Bool-cases fails) [
      | inl f ↦
          sends_as fails bs p none _ (rw (send, h.held, h.live, e, f) refl)
            (quiet p (emitted (Event.send_failed fa) ∷ p.left.log) h refl)
      | inr f ↦
          let amount = min send_chunk_bytes (length bs) in
          let m : Message = record {
            sender = p.left.node_id;
            to = (p.left.objects ra).remote_id;
            kind = bytes (take amount bs);
          } in
          sends_as fails bs p (some amount) _ (rw (send, h.held, h.live, e, f) refl)
            (posts p m h (h.left_named, h.peer, take amount bs, refl))
    ]
  ]
