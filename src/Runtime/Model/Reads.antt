-- ===== src/Runtime/Model/Reads.antt =====
-- The virtual model file of runtime/llmlet-runtime.js, read while its chunks arrive.
use dip_distributed_llm_runt.Prelude.{
  ℕ, ◌+◌, ◌-◌, ◌*◌, ◌/◌, ◌<◌, ◌≡◌, ◌⊎◌, List, [], some, length, take, drop, ◌==◌, if◌then◌else◌,
  true, false,
}
use dip_distributed_llm_runt.Runtime.Model.{
  Entry, Node, find, ChunkKey, chunk_key, Answer, copied, past_end, retry, retry_loading, io_error,
  read, chunk_loaded,
}
use dip_distributed_llm_runt.Runtime.Model.WaitingTable.{Ascending}

-- A node, and how many loads of each chunk are under way.
pub record Mount : Type 0 where
  pub node : Node
  pub loading : ℕ → ℕ

abbrev pub started : ℕ → Answer → (ℕ → ℕ) → ℕ → ℕ
started i (copied bytes) loading = loading
started i (past_end by) loading = loading
started i retry loading = loading
started i (retry_loading key) loading = λ j. if i == j then loading j + 1 else loading j
started i io_error loading = loading

abbrev pub after_read : (m count position now : ℕ) → Mount → Mount
after_read m count position now w =
    let (answer, node) = read m count position now w.node in
    record { node = node; loading = started (position / m) answer w.loading }

-- The bytes of the file that a key stands for.
abbrev pub range : ChunkKey → List ℕ → List ℕ
range key file = take (key.stop - key.begin) (drop key.begin file)

abbrev pub after_load : (m i : ℕ) (file : List ℕ) → Mount → Mount
after_load m i file w = record {
  node = chunk_loaded i (range (chunk_key m w.node.size i) file) w.node;
  loading = λ j. if i == j then w.loading j - 1 else w.loading j;
}

-- A read below the end of the file, or the end of a load that is under way: the cache or the network
-- has given the bytes of the range that was asked for.
pub data Step (m : ℕ) (file : List ℕ) (w : Mount) : Mount → Type 0 where
  reads :
      (count position now : ℕ)
      → position < length file
      → Step m file w (after_read m count position now w)
  arrives : (i : ℕ) → 0 < w.loading i → Step m file w (after_load m i file w)

pub data Reach (m : ℕ) (file : List ℕ) (w : Mount) : Mount → Type 0 where
  here : Reach m file w w
  next : {u v : Mount} → Reach m file w u → Step m file u v → Reach m file w v

abbrev pub mounted : ℕ → Mount
mounted size = record {
  node = record { size = size; table = []; remote_error = false };
  loading = λ j. 0;
}

abbrev pub Whole : (m i : ℕ) → List ℕ → Entry → Type 0
Whole m i file e = (e.res ≡ take m (drop (i * m) file)) × (e.length_ ≡ length e.res)

-- A load is under way exactly for an entry that is not done.
abbrev pub Pending : ℕ → Mount → Type 0
Pending i w =
    ((w.loading i ≡ 1) × (e : Entry) × (find i w.node.table ≡ some e) × (e.done ≡ false))
    ⊎ ((w.loading i ≡ 0) × ((e : Entry) → find i w.node.table ≡ some e → e.done ≡ true))

pub record IsServing (m : ℕ) (file : List ℕ) (w : Mount) : Type 0 where
  pub size : w.node.size ≡ length file
  pub healthy : w.node.remote_error ≡ false
  pub ascending : Ascending w.node.table
  pub whole : (i : ℕ) (e : Entry) → find i w.node.table ≡ some e → e.done ≡ true → Whole m i file e
  pub pending : (i : ℕ) → Pending i w
