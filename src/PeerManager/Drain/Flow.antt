-- ===== src/PeerManager/Drain/Flow.antt =====
-- The loop of `drain` in harness/runtime-only/harness-peer-manager.js as a byte stream.
use dip_distributed_llm_runt.Prelude.{
  ℕ, zero, suc, ◌+◌, ◌-◌, ◌≤◌, ◌≡◌, refl, ap, List, [], ◌∷◌, ◌++◌, arith, length, take, drop, min,
  append_assoc, append-nil, take-append-drop, length-take, length-drop,
}
use dip_distributed_llm_runt.PeerManager.Drain.{drain_queue, total, flat}

take_all : (n : ℕ) (xs : List ℕ) → length xs ≤ n → take n xs ≡ xs
take_all zero [] h = refl
take_all zero (x ∷ xs) h = absurd (omega arith)
take_all (suc n) [] h = refl
take_all (suc n) (x ∷ xs) h = ap (◌∷◌ x) (take_all n xs (omega arith))

-- What drain takes and what it leaves make up the queue, byte for byte.
pub drain_queue-flat :
    (queue : List (List ℕ)) (len : ℕ)
    → flat (drain_queue queue len).writes ++ flat (drain_queue queue len).rest ≡ flat queue
unfolding drain_queue
drain_queue-flat [] len = refl
drain_queue-flat (head ∷ queue) len = ground (
  arith,
  take-append-drop (min len (length head)) head,
  take_all (min len (length head)) head,
  append-nil (take (min len (length head)) head),
  append_assoc (take (min len (length head)) head) (drop (min len (length head)) head) (flat queue),
  append_assoc (take (min len (length head)) head)
      (flat (drain_queue queue (len - min len (length head))).writes)
      (flat (drain_queue queue (len - min len (length head))).rest),
  drain_queue-flat queue (len - min len (length head)),
)

-- It takes what there is, up to `len`.
pub drain_queue-written :
    (queue : List (List ℕ)) (len : ℕ) → (drain_queue queue len).written ≡ min len (total queue)
unfolding drain_queue
drain_queue-written [] len = omega arith
drain_queue-written (head ∷ queue) len = ground (
  arith,
  length-take (min len (length head)) head,
  drain_queue-written queue (len - min len (length head)),
)

pub drain_queue-total :
    (queue : List (List ℕ)) (len : ℕ)
    → (drain_queue queue len).written + total (drain_queue queue len).rest ≡ total queue
unfolding drain_queue
drain_queue-total [] len = refl
drain_queue-total (head ∷ queue) len = ground (
  arith,
  length-take (min len (length head)) head,
  length-drop (min len (length head)) head,
  drain_queue-total queue (len - min len (length head)),
)
