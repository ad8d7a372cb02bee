-- ===== src/Gguf/Sources/Http/Receiving.antt =====
-- Responses of a server of one file to HttpSource of scripts/probe-gguf-header.mjs.
use dip_distributed_llm_runt.Prelude.{
  ℕ, ◌+◌, ◌-◌, ◌≤◌, ◌<◌, ◌≡◌, ◌⊎◌, refl, sym, ap, subst, ◌∙◌, List, [], ◌∷◌, ◌++◌, Option, none,
  some, length, take, drop, min, ltb, arith, length-append, length-take, take_all, take-append_le,
  append_assoc, if-cases, inl, inr,
}
use dip_distributed_llm_runt.Gguf.Sources.File.{joined, HasStart, take-HasStart, append-HasStart}
use dip_distributed_llm_runt.Gguf.Sources.Http.{
  Response, partial, whole, refused, Mode, ranges, streaming, HttpSource, pump_loop, pump,
  length_header, receive,
}

abbrev pub Sized : List ℕ → Option ℕ → Type 0
Sized file size = (size ≡ none) ⊎ (size ≡ some (length file))

-- A server of `file`: it honours Range, or it sends the whole file and names its length.
abbrev pub Answers : List ℕ → (from target : ℕ) → Response → Type 0
Answers file from target (partial total body) =
    (from < length file) × Sized file total × (body ≡ take (target - from) (drop from file))
Answers file from target (whole content_length body) =
    (from ≡ 0) × (content_length ≡ some (length file)) × (joined body ≡ file)
Answers file from target (refused status) = length file ≤ from

abbrev pub Ahead : List ℕ → List ℕ → Mode → Type 0
Ahead file bytes ranges = Unit
Ahead file bytes (streaming chunks) = bytes ++ joined chunks ≡ file

pub record IsFetching (file : List ℕ) (s : HttpSource) : Type 0 where
  pub start : HasStart file s.bytes
  pub sized : Sized file s.size
  pub ahead : Ahead file s.bytes s.mode

pub prefix-HasStart : (file b rest : List ℕ) → b ++ rest ≡ file → HasStart file b
prefix-HasStart file b rest e = sym (
    ap (take (length b)) (sym e)
    ∙ take-append_le (length b) b rest (omega arith)
    ∙ take_all (length b) b (omega arith))

pub pump_loop-joined :
    (target : ℕ) (chunks : List (List ℕ)) (bytes : List ℕ)
    → (pump_loop target chunks bytes).0 ++ joined (pump_loop target chunks bytes).1
      ≡ bytes ++ joined chunks
unfolding pump_loop
pump_loop-joined target [] bytes = refl
pump_loop-joined target (chunk ∷ chunks) bytes =
    if-cases (λ (r : List ℕ × List (List ℕ)). r.0 ++ joined r.1 ≡ bytes ++ (chunk ++ joined chunks))
      (ltb (length bytes) target)
      (λ _.
        pump_loop-joined target chunks (bytes ++ chunk) ∙ append_assoc bytes chunk (joined chunks))
      (λ _. refl)

pub pump_loop-length :
    (target : ℕ) (chunks : List (List ℕ)) (bytes : List ℕ)
    → min target (length (bytes ++ joined chunks)) ≤ length (pump_loop target chunks bytes).0
unfolding pump_loop
pump_loop-length target [] bytes = omega (arith, length-append bytes [])
pump_loop-length target (chunk ∷ chunks) bytes =
    if-cases
      (λ (r : List ℕ × List (List ℕ)).
        min target (length (bytes ++ (chunk ++ joined chunks))) ≤ length r.0)
      (ltb (length bytes) target)
      (λ _.
        subst (λ l. min target (length l) ≤ length (pump_loop target chunks (bytes ++ chunk)).0)
          (append_assoc bytes chunk (joined chunks))
          (pump_loop-length target chunks (bytes ++ chunk)))
      (λ enough. ground arith)

module _ (file : List ℕ) where
  pub pump-IsFetching :
      (target : ℕ) (chunks : List (List ℕ)) (s : HttpSource)
      → s.bytes ++ joined chunks ≡ file
      → Sized file s.size
      → IsFetching file (pump target chunks s)
  unfolding pump
  pump-IsFetching target chunks s e sized =
      let (bytes, rest) = pump_loop target chunks s.bytes in
      let all : bytes ++ joined rest ≡ file = pump_loop-joined target chunks s.bytes ∙ e in
      record { start = prefix-HasStart file bytes (joined rest) all; sized = sized; ahead = all }

  pub pump-length :
      (target : ℕ) (chunks : List (List ℕ)) (s : HttpSource)
      → s.bytes ++ joined chunks ≡ file
      → min target (length file) ≤ length (pump target chunks s).bytes
  unfolding pump
  pump-length target chunks s e =
      subst (λ l. min target (length l) ≤ length (pump_loop target chunks s.bytes).0) e
        (pump_loop-length target chunks s.bytes)

  -- What a response of the server does to a source that asked for more.
  abbrev pub Filled : ℕ → Option HttpSource → Type 0
  Filled target o =
      (t : HttpSource) × (o ≡ some t)
      × IsFetching file t
      × (min target (length file) ≤ length t.bytes)

  -- Or the file is at its end, and there was no more.
  abbrev pub Received : ℕ → HttpSource → Option HttpSource → Type 0
  Received target s o = Filled target o ⊎ ((o ≡ none) × (length file ≤ length s.bytes))

  pub nil_of : (b : List ℕ) → length b ≡ 0 → b ≡ []
  nil_of b h = sym (take_all 0 b (omega arith))

  pub known-Sized :
      (total size : Option ℕ)
      → Sized file total
      → Sized file size
      → Sized file (elim total [ none ↦ size | some n ↦ some n ])
  known-Sized none size h k = k
  known-Sized (some n) size h k = h

  pub receive-Received :
      (target : ℕ) (r : Response) (s : HttpSource)
      → IsFetching file s
      → s.mode ≡ ranges
      → length s.bytes ≤ target
      → Answers file (length s.bytes) target r
      → Received target s (receive target r s)
  unfolding receive
  receive-Received target (partial total body) s h mode le (_, sized, part) =
      let got : s.bytes ++ body ≡ take target file =
        ap (◌++◌ s.bytes) part ∙ append-HasStart file s.bytes target h.start le in
      let t : HttpSource = record s {
        requests = s.requests + 1;
        size = elim total [ none ↦ s.size | some n ↦ some n ];
        bytes = s.bytes ++ body;
      } in
      inl (
        t,
        refl,
        record {
          start = subst (HasStart file) (sym got) (take-HasStart file target);
          sized = known-Sized total s.size sized h.sized;
          ahead = subst (Ahead file (s.bytes ++ body)) (sym mode) tt;
        },
        omega (arith, ap length got, length-take target file),
      )
  receive-Received target (whole content_length body) s h mode le (zero_, named, all) =
      let t : HttpSource = record s {
        requests = s.requests + 1;
        size = some (length_header content_length);
      } in
      let joins : t.bytes ++ joined body ≡ file =
        ap (λ b. b ++ joined body) (nil_of s.bytes zero_) ∙ all in
      inl (
        pump target body t,
        ground (arith, zero_),
        pump-IsFetching target body t joins (inr (ap (λ n. some (length_header n)) named)),
        pump-length target body t joins,
      )
  receive-Received target (refused status) s h mode le past = inr (refl, past)
