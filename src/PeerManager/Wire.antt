-- ===== src/PeerManager/Wire.antt =====
-- Two managers of harness/runtime-only/harness-peer-manager.js joined by a transport that delivers the
-- posts of one to the other in order, as a BroadcastChannel does.
--
-- `heard` counts the posts of the left manager that the right one has heard.
pub mod Sending
pub mod Flow
mod Tests
use dip_distributed_llm_runt.Prelude.{
  ℕ, suc, ◌+◌, Bool, List, [], ◌∷◌, ◌++◌, Option, none, some, take, drop,
}
use dip_distributed_llm_runt.PeerManager.{
  Manager, Message, Kind, Output, emitted, posted, answered, wrote, received,
}
use dip_distributed_llm_runt.PeerManager.Api.{send, recv, on_message}

-- The messages posted so far, oldest first. The log is newest first.
unfoldable pub outbox : List Output → List Message
outbox [] = []
outbox (posted m ∷ log) = outbox log ++ (m ∷ [])
outbox (emitted e ∷ log) = outbox log
outbox (answered k fd ∷ log) = outbox log
outbox (wrote k w ∷ log) = outbox log
outbox (received k b ∷ log) = outbox log

pub record Pair : Type 0 where
  pub left : Manager
  pub right : Manager
  pub heard : ℕ

abbrev pub in_flight : Pair → List Message
in_flight p = drop p.heard (outbox p.left.log)

-- The Runtime on the left sends, a frame arrives on the right, or the Runtime on the right reads.
pub data Move : Type 0 where
  sends : (fails : Bool) → List ℕ → Move
  arrives : Move
  reads : (len done : ℕ) → Move

unfoldable pub hear_next : List Message → Pair → Pair
hear_next [] p = p
hear_next (m ∷ ms) p = record p { right = on_message m p.right; heard = suc p.heard }

unfoldable pub move : ℕ → ℕ → Move → Pair → Pair
move fa fb (sends fails bytes) p = record p { left = (send fails fa bytes p.left).1 }
move fa fb arrives p = hear_next (in_flight p) p
move fa fb (reads len done) p = record p { right = recv fb len done p.right }

unfoldable pub moves : ℕ → ℕ → List Move → Pair → Pair
moves fa fb [] p = p
moves fa fb (m ∷ ms) p = moves fa fb ms (move fa fb m p)

-- The bytes that a move's `send` says it took: as many as it returned, from the front of its buffer.
abbrev pub said : Option ℕ → List ℕ → List ℕ
said none bytes = []
said (some amount) bytes = take amount bytes

abbrev pub taken : ℕ → Move → Pair → List ℕ
taken fa (sends fails bytes) p = said (send fails fa bytes p.left).0 bytes
taken fa arrives p = []
taken fa (reads len done) p = []

-- The same over a run, in the order of the sends.
unfoldable pub all_taken : ℕ → ℕ → List Move → Pair → List ℕ
all_taken fa fb [] p = []
all_taken fa fb (m ∷ ms) p = taken fa m p ++ all_taken fa fb ms (move fa fb m p)
