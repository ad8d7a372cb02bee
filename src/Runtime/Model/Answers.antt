-- ===== src/Runtime/Model/Answers.antt =====
-- What a read of the virtual model file in runtime/llmlet-runtime.js returns.
use native.Mathlib.Nat.{div-add-mod', mod-lt}
use dip_distributed_llm_runt.Prelude.{
  ℕ, ◌+◌, ◌-◌, ◌*◌, ◌/◌, ◌%◌, ◌<◌, ◌≤◌, ◌≡◌, ◌⊎◌, refl, sym, ap, ◌∙◌, List, some, arith, length,
  min, take, drop, leb, if-cases, Bool-cases, inl, inr, true, false, take-take, drop-take,
  drop-drop, take_all, length-take, take-length, length-drop, dec_le,
}
use dip_distributed_llm_runt.Runtime.Model.{
  Entry, Node, find, Answer, copied, retry, retry_loading, ChunkKey, chunk_key, read_chunk, read,
}
use dip_distributed_llm_runt.Runtime.Model.Reads.{Mount, IsServing, started, after_read, after_load}
use dip_distributed_llm_runt.Runtime.Model.Arrivals.{after_load-IsServing, after_load_found}
use dip_distributed_llm_runt.Runtime.Model.Serving.{read-cases}

take_of-take : (c b : ℕ) (xs : List ℕ) → take c (take b xs) ≡ take (min c b) xs
take_of-take c b xs = elim (dec_le c b) [
  | yes le ↦ take-take c b xs le ∙ ap (λ n. take n xs) (omega (arith, le))
  | no gt ↦
      take_all c (take b xs) (omega (arith, length-take b xs)) ∙ ap (λ n. take n xs) (omega arith)
]

-- The part of a chunk that `read` copies is the part of the file at the position.
slice :
    (m count position : ℕ) (file : List ℕ)
    → 0 < m
    → take
        (min count (length (take m (drop (position / m * m) file)) - position % m))
        (drop (position % m) (take m (drop (position / m * m) file)))
      ≡ take (min count (m - position % m)) (drop position file)
slice m count position file pos =
    let chunk : List ℕ = take m (drop (position / m * m) file) in
    let at : position % m + position / m * m ≡ position = omega (arith, div-add-mod' position m) in
    let rest : drop (position % m) chunk ≡ take (m - position % m) (drop position file) =
      drop-take (position % m) m (drop (position / m * m) file)
      ∙ ap (take (m - position % m))
          (drop-drop (position % m) (position / m * m) file ∙ ap (λ p. drop p file) at) in
    ap (λ n. take (min count n) (drop (position % m) chunk))
      (sym (length-drop (position % m) chunk))
    ∙ take-length count (drop (position % m) chunk)
    ∙ ap (take count) rest
    ∙ take_of-take count (m - position % m) (drop position file)

-- What the position's chunk answers.
abbrev pub Copies : (m count position : ℕ) → List ℕ → Answer → Type 0
Copies m count position file a =
    a ≡ copied (take (min count (m - position % m)) (drop position file))

-- The reader is told to come back, either for the first time, with the key of the chunk, or again.
abbrev pub ComesBack : ChunkKey → Answer → Type 0
ComesBack key a = (a ≡ retry_loading key) ⊎ (a ≡ retry)

module _ (m count position now : ℕ) (file : List ℕ) (w : Mount) (h : IsServing m file w)
    (pos : 0 < m) (some_bytes : 0 < count) (lt : position < length file) where
  inner_le : position % m ≤ length (take m (drop (position / m * m) file))
  inner_le = omega (
    arith,
    length-take m (drop (position / m * m) file),
    length-drop (position / m * m) file,
    div-add-mod' position m,
    mod-lt position pos,
    lt,
  )

  done-Copies :
      (e : Entry)
      → find (position / m) w.node.table ≡ some e
      → e.done ≡ true
      → Copies m count position file (read_chunk (position / m) (position % m) count now e w.node).0
  unfolding read_chunk
  done-Copies e found done =
      let (res, len) = h.whole (position / m) e found done in
      let size : e.length_ ≡ length (take m (drop (position / m * m) file)) = len ∙ ap length res in
      if-cases (λ (r : Answer × Node). Copies m count position file r.0) e.done
        (λ _.
          if-cases (Copies m count position file) (leb (position % m) e.length_)
            (λ _. ap copied (
              ap (λ n. take (min count (n - position % m)) (drop (position % m) e.res)) size
              ∙ ap
                  (λ c.
                    take (min count (length (take m (drop (position / m * m) file)) - position % m))
                      (drop (position % m) c))
                  res
              ∙ slice m count position file pos))
            (λ over. absurd (ground (arith, size, inner_le))))
        (λ not_done. absurd (cc))

  loading_retries :
      (e : Entry)
      → e.done ≡ false
      → read_chunk (position / m) (position % m) count now e w.node ≡ (retry, w.node)
  unfolding read_chunk
  loading_retries e not_done = ground (arith, not_done)

  -- For a mount that serves the file and a positive CHUNK_MAX: a read of at least one byte below the file's
  -- end is answered with the file's bytes from its position on, as many as were asked for and the chunk
  -- holds, or with no bytes but the request to come back, where after the read exactly one load of its chunk
  -- is under way.
  pub read_answered :
      Copies m count position file (read m count position now w.node).0
      ⊎ (ComesBack (chunk_key m w.node.size (position / m)) (read m count position now w.node).0
          × ((after_read m count position now w).loading (position / m) ≡ 1))
  read_answered =
      let after : Answer × Node → Mount =
        λ r. record { node = r.1; loading = started (position / m) r.0 w.loading } in
      read-cases m count position now w.node
        (λ r.
          Copies m count position file r.0
          ⊎ (ComesBack (chunk_key m w.node.size (position / m)) r.0
              × ((after r).loading (position / m) ≡ 1)))
        (λ zero_. absurd (omega arith))
        (λ broken. absurd (let healthy : w.node.remote_error ≡ false = h.healthy in cc))
        (λ gone. elim (h.pending (position / m)) [
          | inl (one, e, found, loading) ↦ absurd (cc)
          | inr (none_, all) ↦ inr (inl refl, ground (arith, none_))
        ])
        (λ e found. elim (Bool-cases e.done) [
          | inl done ↦ inl (done-Copies e found done)
          | inr not_done ↦ inr (elim (h.pending (position / m)) [
            | inl (one, d, at, loading) ↦ (
              inr (ap (λ r. r.0) (loading_retries e not_done)),
              ap (λ r. started (position / m) r.0 w.loading (position / m))
                    (loading_retries e not_done)
                  ∙ one,
            )
            | inr (none_, all) ↦ absurd (let done : e.done ≡ true = all e found in cc)
          ])
        ])

-- For a mount that serves the file and a positive CHUNK_MAX: when the load of the position's chunk ends,
-- a read of at least one byte below the file's end is
-- answered with the file's bytes from its position on, as many as were asked for and the chunk holds.
pub read-after_load :
    (m count position now : ℕ) (file : List ℕ) (w : Mount)
    → IsServing m file w
    → 0 < m
    → 0 < count
    → position < length file
    → 0 < w.loading (position / m)
    → Copies m count position file
        (read m count position now (after_load m (position / m) file w).node).0
read-after_load m count position now file w h pos some_bytes lt busy =
    let v : Mount = after_load m (position / m) file w in
    let after : IsServing m file v = after_load-IsServing m (position / m) file w h busy in
    let (e, found, done) = after_load_found m (position / m) file w h busy in
    read-cases m count position now v.node (λ r. Copies m count position file r.0)
      (λ zero_. absurd (omega arith))
      (λ broken. absurd (let healthy : v.node.remote_error ≡ false = after.healthy in cc))
      (λ gone. absurd (cc))
      (λ d at.
        done-Copies m count position now file v after pos some_bytes lt d at
          (let same : some e ≡ some d = sym found ∙ at in cc))
