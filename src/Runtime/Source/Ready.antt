-- ===== src/Runtime/Source/Ready.antt =====
-- What prepareModel leaves: where each chunk of the model can be had.
use dip_distributed_llm_runt.Prelude.{
  ℕ, suc, ◌+◌, ◌-◌, ◌*◌, ◌<◌, ◌≤◌, ◌≡◌, refl, ap, sym, subst, ◌∙◌, ◌⊎◌, inl, inr, true, List, [],
  ◌∷◌, some, ltb, ◌==◌, take, drop, length, length-drop, min, arith, Bool-cases, Option-cases,
  take-length,
}
use dip_distributed_llm_runt.Prelude.Decimal.{read_digits}
use dip_distributed_llm_runt.Prelude.Dict
use dip_distributed_llm_runt.Runtime.Model.{
  ChunkKey-discrete, ChunkStore, chunk_key, fetch_whole_model_to_cache,
}
use dip_distributed_llm_runt.Runtime.Model.Preload.{flat, preload_hit}
use dip_distributed_llm_runt.Runtime.Source.{
  Text, File, Server, ModelSource, Prepared, file, url, other, prepared, ranges, preloaded,
  positive_length, preload, prepare_file, prepare_sized, prepare_url, fetch_range,
}

-- The server has a model of these bytes: what it answers with 206 is the range asked for, it answers
-- so for every range of the file once it has done so for the first two bytes, its whole body is the
-- file, and a Content-Length is the length of the file.
pub record Serves (bytes : List ℕ) (server : Server) : Type 0 where
  pub ranged :
      (first last : ℕ)
      → (server.range first last).status ≡ 206
      → (server.range first last).body ≡ take (suc last - first) (drop first bytes)
  pub steady :
      (first last : ℕ)
      → first ≤ last
      → last < length bytes
      → (server.range 0 1).status ≡ 206
      → (server.range first last).status ≡ 206
  pub whole : (values : List (List ℕ)) → server.whole.body ≡ some values → flat values ≡ bytes
  pub sized :
      (raw : Text) (size : ℕ)
      → server.head.content_length ≡ some raw
      → read_digits 0 raw ≡ some size
      → size ≡ length bytes

abbrev pub Holds : List ℕ → Server → ModelSource → Type 0
Holds bytes server (file f) = f.bytes ≡ bytes
Holds bytes server (url address) = Serves bytes server
Holds bytes server other = Unit

-- What the cache has for a chunk of the model is that chunk.
abbrev pub Truthful : ℕ → List ℕ → ChunkStore → Type 0
Truthful m bytes store =
    (i : ℕ) (cached : List ℕ)
    → i * m < length bytes
    → Dict.get ChunkKey-discrete (chunk_key m (length bytes) i) store ≡ some cached
    → cached ≡ take m (drop (i * m) bytes)

-- Where a prepared model's chunks come from.
pub record IsReady (m : ℕ) (bytes : List ℕ) (p : Prepared) : Type 0 where
  pub size : p.size ≡ length bytes
  pub truthful : Truthful m bytes p.store
  pub fetches :
      (i : ℕ)
      → i * m < length bytes
      → ((cached : List ℕ) × (Dict.get ChunkKey-discrete (chunk_key m (length bytes) i) p.store
            ≡ some cached))
        ⊎ (fetch_range p.origin (i * m) (min (i * m + m) (length bytes))
            ≡ some (take m (drop (i * m) bytes)))

chunk_bytes :
    (m i : ℕ) (bytes : List ℕ)
    → i * m < length bytes
    → take (min (i * m + m) (length bytes) - i * m) (drop (i * m) bytes)
      ≡ take m (drop (i * m) bytes)
chunk_bytes m i bytes lt =
    let size : min (i * m + m) (length bytes) - i * m ≡ min m (length (drop (i * m) bytes)) =
      rw length-drop (ground arith) in
    rw size (take-length m (drop (i * m) bytes))

IsReady-of :
    (m : ℕ) (bytes : List ℕ) (q p : Prepared)
    → prepared q ≡ prepared p
    → IsReady m bytes q
    → IsReady m bytes p
IsReady-of m bytes q p e h = let same : q ≡ p = cc e in subst (IsReady m bytes) same h

pub file-IsReady :
    (m : ℕ) (sha256 : List ℕ → List ℕ) (f : File) (store : ChunkStore) (p : Prepared)
    → Truthful m f.bytes store
    → prepare_file sha256 f store ≡ prepared p
    → IsReady m f.bytes p
unfolding prepare_file
file-IsReady m sha256 f store p h e = elim (Bool-cases (length f.bytes == 0)) [
  | inl q ↦ absurd (cc (rw q at e))
  | inr q ↦ IsReady-of m f.bytes _ p (rw q at e) (record {
    size = refl;
    truthful = h;
    fetches = λ i lt. inr (unfold fetch_range in (ap some (chunk_bytes m i f.bytes lt)));
  })
]

preloaded-IsReady :
    (m size : ℕ) (id : Text) (bytes : List ℕ) (values : List (List ℕ)) (store : ChunkStore)
    → 0 < m
    → size ≡ length bytes
    → flat values ≡ bytes
    → IsReady m bytes (record {
      file_id = id;
      size = size;
      origin = preloaded;
      store = fetch_whole_model_to_cache m values store;
    })
preloaded-IsReady m size id bytes values store pos sized whole =
    subst
      (λ b. IsReady m b (record {
        file_id = id;
        size = size;
        origin = preloaded;
        store = fetch_whole_model_to_cache m values store;
      }))
      whole
      (record {
        size = sized ∙ ap length (sym whole);
        truthful = λ i cached lt e.
            let known = preload_hit m i values store pos lt in
            let same : some cached ≡ some (take m (drop (i * m) (flat values))) = sym e ∙ known in
            cc same;
        fetches = λ i lt. inl (_, preload_hit m i values store pos lt);
      })

ranged-IsReady :
    (m size : ℕ) (id : Text) (bytes : List ℕ) (server : Server) (store : ChunkStore)
    → 0 < m
    → size ≡ length bytes
    → Serves bytes server
    → Truthful m bytes store
    → (server.range 0 1).status ≡ 206
    → IsReady m bytes
        (record { file_id = id; size = size; origin = ranges server.range; store = store })
unfolding fetch_range
ranged-IsReady m size id bytes server store pos sized serves h e = record {
  size = sized;
  truthful = h;
  fetches = λ i lt.
      let stop = min (i * m + m) (length bytes) in
      let ok = serves.steady (i * m) (stop - 1) (omega arith) (omega arith) e in
      let test : ((server.range (i * m) (stop - 1)).status == 206) ≡ true = ground (arith, ok) in
      let last : suc (stop - 1) - i * m ≡ stop - i * m = omega arith in
      inr (
        rw test (
          ap some (
            serves.ranged (i * m) (stop - 1) ok
            ∙ ap (λ n. take n (drop (i * m) bytes)) last
            ∙ chunk_bytes m i bytes lt)));
}

sized-IsReady :
    (m size : ℕ) (id : Text) (bytes : List ℕ) (server : Server) (store : ChunkStore) (p : Prepared)
    → 0 < m
    → size ≡ length bytes
    → Serves bytes server
    → Truthful m bytes store
    → prepare_sized m server id size store ≡ prepared p
    → IsReady m bytes p
unfolding prepare_sized preload
sized-IsReady m size id bytes server store p pos sized serves h e =
    elim (Bool-cases ((server.range 0 1).status == 206)) [
      | inl q ↦
          IsReady-of m bytes _ p (rw q at e)
            (ranged-IsReady m size id bytes server store pos sized serves h (ground arith))
      | inr q ↦ elim (Option-cases server.whole.body) [
        | inl b ↦ absurd (cc (rw (q, b) at e))
        | inr (values, b) ↦ elim (Bool-cases server.whole.ok) [
          | inl k ↦
              IsReady-of m bytes _ p (rw (q, b, k) at e)
                (preloaded-IsReady m size id bytes values store pos sized (serves.whole values b))
          | inr k ↦ absurd (cc (rw (q, b, k) at e))
        ]
      ]
    ]

positive_length-read :
    (raw : Text) (size : ℕ) → positive_length raw ≡ some size → read_digits 0 raw ≡ some size
unfolding positive_length
positive_length-read raw size e = elim (Option-cases (read_digits 0 raw)) [
  | inl q ↦ absurd (cc (rw (positive_length, q) at e))
  | inr (n, q) ↦ elim (Bool-cases (ltb 0 n)) [
    | inl k ↦ q ∙ (rw (positive_length, q, k) at e)
    | inr k ↦ absurd (cc (rw (positive_length, q, k) at e))
  ]
]

pub url-IsReady :
    (m : ℕ) (sha256 : List ℕ → List ℕ) (server : Server) (address : Text) (bytes : List ℕ)
    (store : ChunkStore) (p : Prepared)
    → 0 < m
    → Serves bytes server
    → Truthful m bytes store
    → prepare_url m sha256 server address store ≡ prepared p
    → IsReady m bytes p
unfolding prepare_url
url-IsReady m sha256 server [] bytes store p pos serves h e = absurd (cc e)
url-IsReady m sha256 server (c ∷ cs) bytes store p pos serves h e =
    elim (Bool-cases server.head.ok) [
      | inr k ↦ absurd (cc (rw k at e))
      | inl k ↦ elim (Option-cases server.head.content_length) [
        | inl q ↦ absurd (cc (rw (k, q) at e))
        | inr (raw, q) ↦ elim (Option-cases (positive_length raw)) [
          | inl n ↦ absurd (cc (rw (k, q, n) at e))
          | inr (size, n) ↦
              sized-IsReady m size _ bytes server store p pos
                (serves.sized raw size q (positive_length-read raw size n)) serves h
                (rw (k, q, n) at e)
        ]
      ]
    ]
