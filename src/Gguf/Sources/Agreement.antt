-- ===== src/Gguf/Sources/Agreement.antt =====
-- Readers of scripts/lib/gguf-header.mjs on a byte source of scripts/probe-gguf-header.mjs, and on the
-- whole file.
use dip_distributed_llm_runt.Prelude.{
  ℕ, ◌+◌, ◌-◌, ◌≤◌, ◌≡◌, refl, sym, ap, ◌∙◌, List, Option, none, some, length, take, drop, leb,
  arith, take-take, drop-take, length-take, Option-cases, inl, inr, if-cases, Bool-cases,
}
use dip_distributed_llm_runt.Gguf.Program.{Failure, Program, ret, throw, request}
use dip_distributed_llm_runt.Gguf.Sources.{
  ByteSource, IsSourceOf, Outcome, value, thrown, on_ensured, run, run_whole,
}

-- Bytes that lie in a part of the file are the file's.
slice :
    (offset count n : ℕ) (file : List ℕ)
    → offset + count ≤ n
    → take count (drop offset (take n file)) ≡ take count (drop offset file)
slice offset count n file le =
    ap (take count) (drop-take offset n file)
    ∙ take-take count (n - offset) (drop offset file) (omega arith)

on_ensured-some {ℓ} :
    {A : Type ℓ} {S : Type 0} (k : List ℕ → S → Outcome A) (p : Option (List ℕ) × S)
    (bytes : List ℕ)
    → p.0 ≡ some bytes
    → on_ensured k p ≡ k bytes p.1
on_ensured-some k (none, s) bytes e = absurd (cc)
on_ensured-some k (some b, s) bytes e = ap (λ x. k x s) (let same : b ≡ bytes = cc in same)

on_ensured-none {ℓ} :
    {A : Type ℓ} {S : Type 0} (k : List ℕ → S → Outcome A) (p : Option (List ℕ) × S)
    → p.0 ≡ none
    → on_ensured k p ≡ thrown Failure.unavailable
on_ensured-none k (none, s) e = refl
on_ensured-none k (some b, s) e = absurd (cc)

module _ {ℓ} {A : Type ℓ} {S : Type 0} (source : ByteSource S) (Good : S → Type 0) (file : List ℕ)
    (limit : ℕ) (h : IsSourceOf source Good file limit) where
  step :
      (offset count : ℕ) (k : List ℕ → Program A) (s : S) (bytes : List ℕ)
      → Good s
      → (source.ensure (offset + count) s).0 ≡ some bytes
      → run source (request offset count k) s
        ≡ run source (k (take count (drop offset file))) (source.ensure (offset + count) s).1
  unfolding run
  step offset count k s bytes good e =
      let (start, enough, _) = h.sound (offset + count) s bytes good e in
      on_ensured-some (λ b t. run source (k (take count (drop offset b))) t)
        (source.ensure (offset + count) s) bytes e
      ∙ ap (λ b. run source (k b) (source.ensure (offset + count) s).1)
          (ap (λ b. take count (drop offset b)) start
            ∙ slice offset count (length bytes) file enough)

  -- What a program returns on a source is what it returns with the whole file at hand.
  pub run-run_whole :
      (p : Program A) (s : S) (a : A)
      → Good s
      → run source p s ≡ value a
      → run_whole file (length file) p ≡ value a
  unfolding run run_whole
  run-run_whole (ret b) s a good e = e
  run-run_whole (throw f) s a good e = absurd (cc)
  run-run_whole (request offset count k) s a good e =
      elim (Option-cases (source.ensure (offset + count) s).0) [
        | inl none_ ↦ absurd (
            let fails : run source (request offset count k) s ≡ thrown Failure.unavailable =
              on_ensured-none (λ b t. run source (k (take count (drop offset b))) t)
                (source.ensure (offset + count) s) none_ in
            cc)
        | inr (bytes, some_) ↦
            let (start, enough, good') = h.sound (offset + count) s bytes good some_ in
            let inside : offset + count ≤ length file =
              omega (arith, enough, ap length start, length-take (length bytes) file) in
            let rest : run_whole file (length file) (k (take count (drop offset file))) ≡ value a =
              run-run_whole (k (take count (drop offset file))) (source.ensure (offset + count) s).1
                a good' (sym (step offset count k s bytes good some_) ∙ e) in
            if-cases (λ (o : Outcome A). o ≡ value a) (leb (offset + count) (length file))
              (λ _. rest) (λ over. absurd (ground arith))
      ]

  -- What a program returns with the first `limit` bytes at hand, it returns on the source.
  pub run_whole-run :
      (p : Program A) (s : S) (a : A)
      → Good s
      → run_whole file limit p ≡ value a
      → run source p s ≡ value a
  unfolding run run_whole
  run_whole-run (ret b) s a good e = e
  run_whole-run (throw f) s a good e = absurd (cc)
  run_whole-run (request offset count k) s a good e =
      elim (Bool-cases (leb (offset + count) limit)) [
        | inr over ↦ absurd (
            let t : run_whole file limit (request offset count k) ≡ thrown Failure.unavailable =
              ground (arith, over) in
            cc)
        | inl le ↦
            let (bytes, some_) = h.gives (offset + count) s good (ground arith) in
            let (_, _, good') = h.sound (offset + count) s bytes good some_ in
            let same : run_whole file limit (request offset count k)
                ≡ run_whole file limit (k (take count (drop offset file))) =
              ground (arith, le) in
            step offset count k s bytes good some_
            ∙ run_whole-run (k (take count (drop offset file))) (source.ensure (offset + count) s).1
                a good' (sym same ∙ e)
      ]
