-- ===== src/Gguf/Sources.antt =====
-- The byte sources of scripts/probe-gguf-header.mjs.
pub mod Agreement
pub mod File
pub mod Http
pub mod Readers
pub mod Written
mod Tests
use dip_distributed_llm_runt.Prelude.{
  ℕ, ◌+◌, ◌≤◌, ◌≡◌, List, Option, none, some, length, take, drop, min, if◌then◌else◌, leb,
}
use dip_distributed_llm_runt.Gguf.Program.{Failure, Program, ret, throw, request}

-- What `readGgufHeader` asks of a source with the state `S`: `ensure end` gives bytes from the start of
-- the file, or throws (`none`).
pub record ByteSource (S : Type 0) : Type 1 where
  pub ensure : ℕ → S → Option (List ℕ) × S

-- A state that is `Good` holds a part of `file`: what `ensure` gives is the start of the file, as long as was
-- asked for at least, and it gives something wherever no more than `limit` bytes are asked for.
pub record IsSourceOf {S : Type 0} (source : ByteSource S) (Good : S → Type 0) (file : List ℕ)
    (limit : ℕ) : Type 0 where
  pub sound :
      (end : ℕ) (s : S) (bytes : List ℕ)
      → Good s
      → (source.ensure end s).0 ≡ some bytes
      → (bytes ≡ take (length bytes) file) × (end ≤ length bytes) × Good (source.ensure end s).1
  pub gives :
      (end : ℕ) (s : S)
      → Good s
      → end ≤ limit
      → (bytes : List ℕ) × ((source.ensure end s).0 ≡ some bytes)

pub data Outcome {ℓ} (A : Type ℓ) : Type ℓ where
  value : A → Outcome A
  thrown : Failure → Outcome A

abbrev pub on_ensured {ℓ} :
    {A : Type ℓ} {S : Type 0} → (List ℕ → S → Outcome A) → Option (List ℕ) × S → Outcome A
on_ensured k (none, s) = thrown Failure.unavailable
on_ensured k (some bytes, s) = k bytes s

-- A program, with a source to answer its requests.
unfoldable pub run {ℓ} : {A : Type ℓ} {S : Type 0} → ByteSource S → Program A → S → Outcome A
run source (ret a) s = value a
run source (throw e) s = thrown e
run source (request offset count k) s =
    on_ensured (λ bytes t. run source (k (take count (drop offset bytes))) t)
      (source.ensure (offset + count) s)

-- The same program, with the first `limit` bytes of the file at hand.
unfoldable pub run_whole {ℓ} : {A : Type ℓ} → List ℕ → ℕ → Program A → Outcome A
run_whole file limit (ret a) = value a
run_whole file limit (throw e) = thrown e
run_whole file limit (request offset count k) =
    let rest = run_whole file limit (k (take count (drop offset file))) in
    if leb (offset + count) limit then rest else thrown Failure.unavailable
