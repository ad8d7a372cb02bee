-- ===== src/PeerManager/Drain.antt =====
-- The loop of `drain` inside `recv` of harness/runtime-only/harness-peer-manager.js.
pub mod Flow
use dip_distributed_llm_runt.Prelude.{
  ℕ, ◌+◌, ◌-◌, if◌then◌else◌, List, [], ◌∷◌, ◌++◌, ◌==◌, ltb, length, take, drop, min,
}

-- The chunks given to writeCB, the queue that is left and the bytes taken.
pub record Drained : Type 0 where
  pub writes : List (List ℕ)
  pub rest : List (List ℕ)
  pub written : ℕ

abbrev pub wrote_head : List ℕ → Drained → Drained
wrote_head w d = record { writes = w ∷ d.writes; rest = d.rest; written = length w + d.written }

-- A head that is only partly taken uses up `remaining`, so the loop ends there.
unfoldable pub drain_queue : List (List ℕ) → ℕ → Drained
drain_queue [] remaining = record { writes = []; rest = []; written = 0 }
drain_queue (head ∷ queue) remaining =
    let amount = min remaining (length head) in
    let later = drain_queue queue (remaining - amount) in
    if remaining == 0
    then record { writes = []; rest = head ∷ queue; written = 0 }
    else if ltb amount (length head)
    then record {
      writes = take amount head ∷ [];
      rest = drop amount head ∷ queue;
      written = amount;
    }
    else wrote_head (take amount head) later

-- The bytes in a queue of chunks: how many, and which.
abbrev pub total : List (List ℕ) → ℕ
total [] = 0
total (c ∷ cs) = length c + total cs

abbrev pub flat : List (List ℕ) → List ℕ
flat [] = []
flat (c ∷ cs) = c ++ flat cs
