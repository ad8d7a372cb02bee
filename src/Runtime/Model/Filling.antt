-- ===== src/Runtime/Model/Filling.antt =====
-- The buffer of fetchWholeModelToCache in runtime/llmlet-runtime.js.
use dip_distributed_llm_runt.Prelude.{
  ℕ, ℕ_discrete, subst, zero, suc, ◌+◌, ◌-◌, ◌*◌, ◌≤◌, ◌<◌, ◌≡◌, ◌≢◌, sym, ap, ◌∙◌, List, [], ◌∷◌,
  ◌++◌, some, arith, length, take, drop, min, length-append, length-take, length-drop, take_all,
  drop_all, take-append_le, drop-append_le, take-append-drop, append_assoc, append-nil, ◌==◌,
  if-cases,
}
use dip_distributed_llm_runt.Prelude.Dict
use dip_distributed_llm_runt.Runtime.Model.{
  ChunkKey-discrete, put, Download, flush_full, copy_value,
}

pub mul-below : (i k m : ℕ) → i < k → i * m + m ≤ k * m
mul-below i k m h = grind arith

-- The state after `bytes` have gone in: `k` full chunks are stored, and the rest is in the buffer.
pub record Holds (m : ℕ) (bytes : List ℕ) (d : Download) : Type 0 where
  pub k : ℕ
  pub position : d.chunk_position ≡ k * m
  pub buffer : d.chunk ≡ drop (k * m) bytes
  pub size : length bytes ≡ k * m + length d.chunk
  pub room : length d.chunk < m
  pub stored :
      (i : ℕ)
      → i < k
      → Dict.get ChunkKey-discrete (record { begin = i * m; stop = i * m + m }) d.store
        ≡ some (take m (drop (i * m) bytes))

module _ (m : ℕ) (bytes piece : List ℕ) (d : Download) (h : Holds m bytes d)
    (fits : length d.chunk + length piece ≤ m) where
  pub buffer_after : d.chunk ++ piece ≡ drop (h.k * m) (bytes ++ piece)
  buffer_after = rw h.buffer (sym (drop-append_le (h.k * m) bytes piece (omega (arith, h.size))))

  pub old_chunk :
      (i : ℕ) → i < h.k → take m (drop (i * m) (bytes ++ piece)) ≡ take m (drop (i * m) bytes)
  old_chunk i lt =
      let below : i * m + m ≤ h.k * m = mul-below i h.k m lt in
      ap (take m) (drop-append_le (i * m) bytes piece (omega (arith, h.size)))
      ∙ take-append_le m (drop (i * m) bytes) piece
          (omega (arith, h.size, length-drop (i * m) bytes))

  pub Holds-partial :
      length (d.chunk ++ piece) < m
      → Holds m (bytes ++ piece) (record d { chunk = d.chunk ++ piece })
  Holds-partial lt = record {
    k = h.k;
    position = h.position;
    buffer = buffer_after;
    size = omega (arith, h.size, length-append bytes piece, length-append d.chunk piece);
    room = lt;
    stored = λ i lt. h.stored i lt ∙ ap some (sym (old_chunk i lt));
  }

  -- The key that the buffer fills is that of chunk `k`; the others keep their bytes.
  pub full_stored :
      length (d.chunk ++ piece) ≡ m
      → (i : ℕ) → i < suc h.k
      → Dict.get ChunkKey-discrete
          (record { begin = i * m; stop = i * m + m })
          (put
            (record { begin = d.chunk_position; stop = d.chunk_position + m })
            (d.chunk ++ piece)
            d.store)
        ≡ some (take m (drop (i * m) (bytes ++ piece)))
  full_stored e i lt = elim (ℕ_discrete i h.k) [
    | yes same ↦
        let at : i * m ≡ h.k * m = ap (λ j. j * m) same in
        ap
          (λ p.
            Dict.get ChunkKey-discrete (record { begin = p; stop = p + m })
              (put (record { begin = d.chunk_position; stop = d.chunk_position + m })
                (d.chunk ++ piece) d.store))
          (at ∙ sym h.position)
        ∙ Dict.get-set_self ChunkKey-discrete
            (record { begin = d.chunk_position; stop = d.chunk_position + m }) (d.chunk ++ piece)
            d.store
        ∙ ap some (
            sym (take_all m (d.chunk ++ piece) (omega (arith, e)))
            ∙ ap (take m) (buffer_after ∙ ap (λ p. drop p (bytes ++ piece)) (sym at)))
    | no other ↦
        let below : i < h.k = omega arith in
        let before : i * m + m ≤ h.k * m = mul-below i h.k m below in
        Dict.get-set_ne ChunkKey-discrete (record { begin = i * m; stop = i * m + m })
          (record { begin = d.chunk_position; stop = d.chunk_position + m }) (d.chunk ++ piece)
          d.store
          (λ same.
            let begins : d.chunk_position ≡ i * m = ap (λ key. key.begin) same in
            absurd (omega (arith, h.position, h.room)))
        ∙ h.stored i below
        ∙ ap some (sym (old_chunk i below))
  ]

  pub Holds-full :
      length (d.chunk ++ piece) ≡ m
      → 0 < m
      → Holds m (bytes ++ piece) (record {
        chunk = [];
        chunk_position = d.chunk_position + m;
        store =
            put
              (record { begin = d.chunk_position; stop = d.chunk_position + m })
              (d.chunk ++ piece)
              d.store;
      })
  Holds-full e pos = record {
    k = suc h.k;
    position = omega (arith, h.position);
    buffer = sym (
        drop_all (suc h.k * m) (bytes ++ piece)
          (omega (arith, h.size, length-append bytes piece, length-append d.chunk piece)));
    size = omega (arith, h.size, length-append bytes piece, length-append d.chunk piece);
    room = pos;
    stored = full_stored e;
  }

pub flush-Holds :
    (m : ℕ) (bytes piece : List ℕ) (d : Download)
    → Holds m bytes d
    → length d.chunk + length piece ≤ m
    → Holds m (bytes ++ piece) (flush_full m (record d { chunk = d.chunk ++ piece }))
unfolding flush_full
flush-Holds m bytes piece d h fits =
    if-cases (Holds m (bytes ++ piece)) (length (d.chunk ++ piece) == m)
      (λ e. Holds-full m bytes piece d h fits (ground arith) (omega (arith, h.room)))
      (λ e. Holds-partial m bytes piece d h fits (
        let other : length (d.chunk ++ piece) ≢ m = ground arith in
        omega (arith, fits, length-append d.chunk piece)))

pub copy_value-Holds :
    (m fuel : ℕ) (bytes value : List ℕ) (d : Download)
    → Holds m bytes d
    → length value ≤ fuel
    → Holds m (bytes ++ value) (copy_value m fuel value d)
unfolding copy_value
copy_value-Holds m zero bytes [] d h le = subst (λ l. Holds m l d) (sym (append-nil bytes)) h
copy_value-Holds m zero bytes (b ∷ value) d h le = absurd (omega arith)
copy_value-Holds m (suc fuel) bytes [] d h le = subst (λ l. Holds m l d) (sym (append-nil bytes)) h
copy_value-Holds m (suc fuel) bytes (b ∷ value) d h le =
    let all : List ℕ = b ∷ value in
    let n : ℕ = min (length all) (m - length d.chunk) in
    let next : Download = flush_full m (record d { chunk = d.chunk ++ take n all }) in
    let step : Holds m (bytes ++ take n all) next =
      flush-Holds m bytes (take n all) d h (omega (arith, h.room, length-take n all)) in
    let rest : Holds m ((bytes ++ take n all) ++ drop n all) (copy_value m fuel (drop n all) next) =
      copy_value-Holds m fuel (bytes ++ take n all) (drop n all) next step
        (omega (arith, le, h.room, length-drop n all)) in
    subst (λ l. Holds m l (copy_value m fuel (drop n all) next))
      (append_assoc bytes (take n all) (drop n all) ∙ ap (◌++◌ bytes) (take-append-drop n all)) rest
