-- ===== src/Runtime/Model/Serving.antt =====
-- The invariant of the virtual model file in runtime/llmlet-runtime.js, step by step.
use dip_distributed_llm_runt.Prelude.{
  ℕ, ◌+◌, ◌/◌, ◌%◌, ◌≡◌, refl, List, [], some, none, arith, length, leb, ◌==◌, if◌then◌else◌,
  if-cases, Option-cases, inl, inr, true,
}
use dip_distributed_llm_runt.Runtime.Model.{
  Entry, Table, Node, find, assign, evict, chunk_key, Answer, copied, retry_loading, io_error,
  pending_entry, read_chunk, read,
}
use dip_distributed_llm_runt.Runtime.Model.WaitingTable.{
  evict-Ascending, find-evict_before, find-evict_loading,
}
use dip_distributed_llm_runt.Runtime.Model.Reads.{
  Mount, started, after_read, reads, arrives, Reach, here, next, mounted, IsServing,
}
use dip_distributed_llm_runt.Runtime.Model.Arrivals.{
  Pending-keeps, assign-IsServing, after_load-IsServing,
}

pub read-cases :
    (m count position now : ℕ) (node : Node) (P : Answer × Node → Type 0)
    → (count ≡ 0 → P (copied [], node))
    → (node.remote_error ≡ true → P (io_error, node))
    → (find (position / m) node.table ≡ none
        → P (
          retry_loading (chunk_key m node.size (position / m)),
          record node { table = assign (position / m) (pending_entry now) node.table },
        ))
    → ((e : Entry)
        → find (position / m) node.table ≡ some e
        → P (read_chunk (position / m) (position % m) count now e node))
    → P (read m count position now node)
unfolding read
read-cases m count position now node P nothing broken missing present =
    if-cases P (count == 0) (λ e. nothing (ground arith))
      (λ _. if-cases P node.remote_error broken (λ _.
        elim (Option-cases (find (position / m) node.table)) [
          | inl gone ↦ rw gone (missing gone)
          | inr (e, found) ↦ rw found (present e found)
        ]))

module _ (m i now : ℕ) (file : List ℕ) (w : Mount) (h : IsServing m file w) where
  -- Without an entry that is not done no load of the chunk is under way.
  done-idle : ((e : Entry) → find i w.node.table ≡ some e → e.done ≡ true) → w.loading i ≡ 0
  done-idle all_done = elim (h.pending i) [
    | inl (one, e, found, loading) ↦ absurd (let done = all_done e found in cc)
    | inr (none_, all) ↦ none_
  ]

  load-IsServing :
      find i w.node.table ≡ none
      → IsServing m file (record {
        node = record w.node { table = assign i (pending_entry now) w.node.table };
        loading = λ j. if i == j then w.loading j + 1 else w.loading j;
      })
  load-IsServing gone =
      let idle : w.loading i ≡ 0 = done-idle (λ e found. absurd (cc)) in
      assign-IsServing m i file w (pending_entry now)
        (λ j. if i == j then w.loading j + 1 else w.loading j) h (λ done. absurd (cc))
        (λ j other. ground arith) (λ _. ground (arith, idle)) (λ done. absurd (cc))

  -- An entry that is done is marked as used.
  touch-IsServing :
      (e : Entry)
      → find i w.node.table ≡ some e
      → e.done ≡ true
      → IsServing m file (record w {
        node = record w.node { table = assign i (record e { last_used = now }) w.node.table };
      })
  touch-IsServing e found done =
      let idle : w.loading i ≡ 0 = done-idle (λ d at. cc) in
      assign-IsServing m i file w (record e { last_used = now }) w.loading h
        (λ _. h.whole i e found done) (λ j other. refl) (λ open_. absurd (cc)) (λ _. idle)

-- The oldest entry that is done may go.
evict-IsServing :
    (m : ℕ) (file : List ℕ) (w : Mount)
    → IsServing m file w
    → IsServing m file (record w { node = record w.node { table = evict w.node.table } })
evict-IsServing m file w h =
    let table : Table = w.node.table in
    record {
      size = h.size;
      healthy = h.healthy;
      ascending = evict-Ascending table h.ascending;
      whole = λ j d at done. h.whole j d (find-evict_before j d table h.ascending at) done;
      pending = λ j.
          Pending-keeps j w (record w { node = record w.node { table = evict table } }) refl
            (λ d at loading. find-evict_loading j d table h.ascending at loading)
            (λ d at. find-evict_before j d table h.ascending at) (h.pending j);
    }

after_read-IsServing :
    (m count position now : ℕ) (file : List ℕ) (w : Mount)
    → IsServing m file w
    → IsServing m file (after_read m count position now w)
unfolding read_chunk
after_read-IsServing m count position now file w h =
    let i : ℕ = position / m in
    let after : Answer × Node → Mount =
      λ r. record { node = r.1; loading = started i r.0 w.loading } in
    read-cases m count position now w.node (λ r. IsServing m file (after r)) (λ _. h) (λ _. h)
      (load-IsServing m i now file w h)
      (λ e found.
        if-cases (λ r. IsServing m file (after r)) e.done
          (λ done.
            let next : Mount = record w {
              node = record w.node {
                table = evict (assign i (record e { last_used = now }) w.node.table);
              };
            } in
            let used : IsServing m file next =
              evict-IsServing m file
                (record w {
                  node = record w.node {
                    table = assign i (record e { last_used = now }) w.node.table;
                  };
                })
                (touch-IsServing m i now file w h e found done) in
            if-cases (λ a. IsServing m file (record next { loading = started i a w.loading }))
              (leb (position % m) e.length_) (λ _. used) (λ _. used))
          (λ _. h))

-- From the mount on, whatever reads below the file's end come and in whatever order their chunks
-- arrive with the right bytes: there is never an error, every chunk in the table that is done holds the
-- bytes of its range, and every load under way has the one entry it completes, which is not evicted.
pub Reach-IsServing :
    (m : ℕ) (file : List ℕ) (w : Mount)
    → Reach m file (mounted (length file)) w
    → IsServing m file w
unfolding find
Reach-IsServing m file w here = record {
  size = refl;
  healthy = refl;
  ascending = tt;
  whole = λ i e at. absurd (cc);
  pending = λ i. inr (refl, λ e at. absurd (cc));
}
Reach-IsServing m file w (next {u = u} r (reads count position now lt)) =
    after_read-IsServing m count position now file u (Reach-IsServing m file u r)
Reach-IsServing m file w (next {u = u} r (arrives i busy)) =
    after_load-IsServing m i file u (Reach-IsServing m file u r) busy
