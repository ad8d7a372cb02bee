-- ===== src/Gguf/Sources/Http/Serving.antt =====
-- HttpSource of scripts/probe-gguf-header.mjs with a server of one file.
use dip_distributed_llm_runt.Prelude.{
  ℕ, ◌≤◌, ◌≡◌, refl, sym, subst, List, ◌++◌, Option, none, some, length, min, leb, ltb, arith,
  if-cases, Bool-cases, inl, inr, false,
}
use dip_distributed_llm_runt.Gguf.Sources.{IsSourceOf}
use dip_distributed_llm_runt.Gguf.Sources.File.{max_read, joined, HasStart}
use dip_distributed_llm_runt.Gguf.Sources.Http.{
  Response, Mode, ranges, streaming, HttpSource, pump, receive, fill, target_of, checked,
  http_ensure, http_source,
}
use dip_distributed_llm_runt.Gguf.Sources.Http.Receiving.{
  Answers, Ahead, IsFetching, pump-IsFetching, pump-length, Received, receive-Received,
}

fill-ranges :
    (fetch : ℕ → ℕ → Response) (target : ℕ) (s : HttpSource)
    → s.mode ≡ ranges
    → fill fetch target s ≡ receive target (fetch (length s.bytes) target) s
unfolding fill
fill-ranges fetch target s e = ground (arith, e)

fill-streaming :
    (fetch : ℕ → ℕ → Response) (target : ℕ) (chunks : List (List ℕ)) (s : HttpSource)
    → s.mode ≡ streaming chunks
    → fill fetch target s ≡ some (pump target chunks s)
unfolding fill
fill-streaming fetch target chunks s e = ground (arith, e)

module _ (fetch : ℕ → ℕ → Response) (file : List ℕ)
    (server : (from target : ℕ) → Answers file from target (fetch from target)) where
  fill-Received :
      (target : ℕ) (s : HttpSource)
      → IsFetching file s
      → length s.bytes ≤ target
      → Received file target s (fill fetch target s)
  fill-Received target s h le = by_mode s.mode refl
    where
      by_mode : (mode : Mode) → s.mode ≡ mode → Received file target s (fill fetch target s)
      by_mode ranges e = subst (Received file target s) (sym (fill-ranges fetch target s e)) (
          receive-Received file target (fetch (length s.bytes) target) s h e le
            (server (length s.bytes) target))
      by_mode (streaming chunks) e =
          let joins : s.bytes ++ joined chunks ≡ file = subst (Ahead file s.bytes) e h.ahead in
          subst (Received file target s) (sym (fill-streaming fetch target chunks s e)) (
            inl (
              pump target chunks s,
              refl,
              pump-IsFetching file target chunks s joins h.sized,
              pump-length file target chunks s joins,
            ))

  abbrev Sound : ℕ → Option (List ℕ) × HttpSource → Type 0
  Sound end r =
      (bytes : List ℕ)
      → r.0 ≡ some bytes
      → HasStart file bytes × (end ≤ length bytes) × IsFetching file r.1

  checked-Sound :
      (end target : ℕ) (s : HttpSource) (o : Option HttpSource)
      → Received file target s o
      → Sound end (checked end s o)
  checked-Sound end target s none r = λ bytes e. absurd (cc)
  checked-Sound end target s (some t) (inr (none_, past)) = λ bytes e. absurd (cc)
  checked-Sound end target s (some t) (inl (u, e, h, le)) =
      let same : t ≡ u = cc in
      if-cases (Sound end) (ltb (length t.bytes) end) (λ _ bytes e. absurd (cc))
        (λ enough bytes e.
          let are : t.bytes ≡ bytes = cc in
          let g : IsFetching file t = subst (IsFetching file) (sym same) h in
          (subst (HasStart file) are g.start, subst (λ b. end ≤ length b) are (ground arith), g))

  ensure-Sound :
      (end : ℕ) (s : HttpSource) → IsFetching file s → Sound end (http_ensure fetch end s)
  unfolding http_ensure
  ensure-Sound end s h =
      if-cases (Sound end) (leb end (length s.bytes))
        (λ enough bytes e.
          let same : s.bytes ≡ bytes = cc in
          (subst (HasStart file) same h.start, subst (λ b. end ≤ length b) same (ground arith), h))
        (λ more.
          if-cases (Sound end) (ltb max_read end) (λ _ bytes e. absurd (cc))
            (λ _.
              if-cases (Sound end) (ltb (target_of end s) end) (λ _ bytes e. absurd (cc))
                (λ fits.
                  checked-Sound end (target_of end s) s (fill fetch (target_of end s) s)
                    (fill-Received (target_of end s) s h (ground arith)))))

  target-enough :
      (end : ℕ) (s : HttpSource) → IsFetching file s → end ≤ length file → end ≤ target_of end s
  target-enough end s h le = elim h.sized [
    | inl unknown ↦ ground (arith, unknown)
    | inr known ↦ ground (arith, known)
  ]

  ensure_filled :
      (end : ℕ) (s t : HttpSource)
      → leb end (length s.bytes) ≡ false
      → end ≤ max_read
      → end ≤ target_of end s
      → fill fetch (target_of end s) s ≡ some t
      → end ≤ length t.bytes
      → (http_ensure fetch end s).0 ≡ some t.bytes
  unfolding http_ensure
  ensure_filled end s t more small fits filled enough = ground (arith, more, filled)

  ensure_gives :
      (end : ℕ) (s : HttpSource)
      → IsFetching file s
      → end ≤ min (length file) max_read
      → (bytes : List ℕ) × ((http_ensure fetch end s).0 ≡ some bytes)
  unfolding http_ensure
  ensure_gives end s h le = elim (Bool-cases (leb end (length s.bytes))) [
    | inl enough ↦ (s.bytes, ground (arith, enough))
    | inr more ↦
        let fits : end ≤ target_of end s = target-enough end s h (omega arith) in
        elim (fill-Received (target_of end s) s h (ground (arith, more))) [
          | inl (t, filled, g, size) ↦ (
            t.bytes,
            ensure_filled end s t more (omega arith) fits filled (omega (arith, size, fits)),
          )
          | inr (none_, past) ↦ absurd (ground (arith, more))
        ]
  ]

  pub http_source-IsSourceOf :
      IsSourceOf (http_source fetch) (IsFetching file) file (min (length file) max_read)
  http_source-IsSourceOf = record { sound = ensure-sound; gives = ensure_gives }
    where
      ensure-sound :
          (end : ℕ) (s : HttpSource) (bytes : List ℕ)
          → IsFetching file s
          → (http_ensure fetch end s).0 ≡ some bytes
          → HasStart file bytes × (end ≤ length bytes) × IsFetching file (http_ensure fetch end s).1
      ensure-sound end s bytes h e = ensure-Sound end s h bytes e
