-- ===== src/Runtime/Model/Arrivals.antt =====
-- The virtual model file of runtime/llmlet-runtime.js when a chunk arrives.
use dip_distributed_llm_runt.Prelude.{
  Bool-cases, ◌≢◌, ℕ, ℕ_discrete, ◌+◌, ◌-◌, ◌*◌, ◌<◌, ◌≡◌, refl, sym, ap, subst, ◌∙◌, List, some,
  arith, length, min, take, drop, ◌==◌, if◌then◌else◌, inl, inr, true, false, dec_le, take_all,
  length-drop,
}
use dip_distributed_llm_runt.Runtime.Model.{Entry, Node, find, assign, chunk_key, chunk_loaded}
use dip_distributed_llm_runt.Runtime.Model.WaitingTable.{
  assign-Ascending, find-assign_self, find-assign_ne, find-assign_cases,
}
use dip_distributed_llm_runt.Runtime.Model.Reads.{
  Mount, range, after_load, Whole, Pending, IsServing,
}

pub range_chunk :
    (m i : ℕ) (file : List ℕ)
    → range (chunk_key m (length file) i) file ≡ take m (drop (i * m) file)
range_chunk m i file = elim (dec_le (i * m + m) (length file)) [
  | yes le ↦ ap (λ n. take n (drop (i * m) file)) (omega (arith, le))
  | no gt ↦
      take_all (min (i * m + m) (length file) - i * m) (drop (i * m) file)
        (omega (arith, length-drop (i * m) file))
      ∙ sym (take_all m (drop (i * m) file) (omega (arith, length-drop (i * m) file)))
]

pub chunk_loaded_found :
    (i : ℕ) (bytes : List ℕ) (node : Node) (e : Entry)
    → find i node.table ≡ some e
    → chunk_loaded i bytes node ≡ record node {
      table = assign i (record e { res = bytes; done = true; length_ = length bytes }) node.table;
    }
unfolding chunk_loaded
chunk_loaded_found i bytes node e found = ground (arith, found)

pub Pending-keeps :
    (j : ℕ) (w v : Mount)
    → v.loading j ≡ w.loading j
    → ((e : Entry) → find j w.node.table ≡ some e → e.done ≡ false → find j v.node.table ≡ some e)
    → ((e : Entry) → find j v.node.table ≡ some e → find j w.node.table ≡ some e)
    → Pending j w
    → Pending j v
Pending-keeps j w v same keeps before (inl (one, e, found, loading)) =
    inl (same ∙ one, e, keeps e found loading, loading)
Pending-keeps j w v same keeps before (inr (none_, all)) =
    inr (same ∙ none_, λ e at. all e (before e at))

-- The entry of one chunk and the number of its loads may change, if they still agree and the entry has
-- the right bytes where it is done.
pub assign-IsServing :
    (m i : ℕ) (file : List ℕ) (w : Mount) (new : Entry) (loading : ℕ → ℕ)
    → IsServing m file w
    → (new.done ≡ true → Whole m i file new)
    → ((j : ℕ) → i ≢ j → loading j ≡ w.loading j)
    → (new.done ≡ false → loading i ≡ 1)
    → (new.done ≡ true → loading i ≡ 0)
    → IsServing m file
        (record { node = record w.node { table = assign i new w.node.table }; loading = loading })
assign-IsServing m i file w new loading h right others once none_ =
    let next : Mount = record {
      node = record w.node { table = assign i new w.node.table };
      loading = loading;
    } in
    let at_i : find i (assign i new w.node.table) ≡ some new =
      find-assign_self i new w.node.table in
    let pending_i : Pending i next = elim (Bool-cases new.done) [
      | inl done ↦ inr (none_ done, λ d at. let same : some new ≡ some d = sym at_i ∙ at in cc)
      | inr open_ ↦ inl (once open_, new, at_i, open_)
    ] in
    record {
      size = h.size;
      healthy = h.healthy;
      ascending = assign-Ascending i new w.node.table h.ascending;
      whole = λ j d at done. elim (find-assign_cases j i d new w.node.table at) [
        | inl (index, now) ↦
            subst (λ k. Whole m k file d) index
              (subst (λ x. Whole m i file x) (sym now) (right (ap (λ x. x.done) (sym now) ∙ done)))
        | inr (other, old) ↦ h.whole j d old done
      ];
      pending = λ j. elim (ℕ_discrete i j) [
        | yes index ↦ subst (λ k. Pending k next) index pending_i
        | no other ↦
            Pending-keeps j w next (others j other)
              (λ d at _. find-assign_ne j i new w.node.table other ∙ at)
              (λ d at. sym (find-assign_ne j i new w.node.table other) ∙ at) (h.pending j)
      ];
    }

pub after_load-IsServing :
    (m i : ℕ) (file : List ℕ) (w : Mount)
    → IsServing m file w
    → 0 < w.loading i
    → IsServing m file (after_load m i file w)
after_load-IsServing m i file w h busy = elim (h.pending i) [
  | inr (none_, all) ↦ absurd (omega (arith, none_))
  | inl (one, e, found, loading) ↦
      let bytes : List ℕ = take m (drop (i * m) file) in
      let arrived : Entry = record e { res = bytes; done = true; length_ = length bytes } in
      let left : ℕ → ℕ = λ j. if i == j then w.loading j - 1 else w.loading j in
      let same : chunk_loaded i (range (chunk_key m w.node.size i) file) w.node
          ≡ record w.node { table = assign i arrived w.node.table } =
        ap (λ b. chunk_loaded i b w.node)
          (ap (λ n. range (chunk_key m n i) file) h.size ∙ range_chunk m i file)
        ∙ chunk_loaded_found i bytes w.node e found in
      subst (λ n. IsServing m file (record { node = n; loading = left })) (sym same)
        (assign-IsServing m i file w arrived left h (λ _. (refl, refl)) (λ j other. ground arith)
          (λ open_. cc) (λ _. ground (arith, one)))
]

pub after_load_found :
    (m i : ℕ) (file : List ℕ) (w : Mount)
    → IsServing m file w
    → 0 < w.loading i
    → (e : Entry) × (find i (after_load m i file w).node.table ≡ some e) × (e.done ≡ true)
after_load_found m i file w h busy = elim (h.pending i) [
  | inr (none_, all) ↦ absurd (omega (arith, none_))
  | inl (one, e, found, loading) ↦
      let bytes : List ℕ = range (chunk_key m w.node.size i) file in
      let arrived : Entry = record e { res = bytes; done = true; length_ = length bytes } in
      (
        arrived,
        ap (λ n. find i n.table) (chunk_loaded_found i bytes w.node e found)
            ∙ find-assign_self i arrived w.node.table,
        refl,
      )
]
