-- ===== src/Gguf/Program.antt =====
-- The Cursor of scripts/lib/gguf-header.mjs: a reader that awaits `source.ensure` again and again.
--
-- A reader is a function of the cursor's offset into a program: what it asks of the source next, and how
-- it goes on with the bytes. A request carries the bytes that the code takes out of the answer.
use dip_distributed_llm_runt.Prelude.{ℕ, ◌+◌, List}

-- The errors by the place that throws them.
pub data Failure : Type 0 where
  unavailable : Failure
  not_scalar : ℕ → Failure
  implausible_string : (offset : ℕ) → Failure
  implausible_array : (offset : ℕ) → Failure
  nested_array : Failure
  unknown_item : ℕ → Failure
  bad_magic : ℕ → Failure
  bad_version : ℕ → Failure
  implausible_counts : Failure
  too_many_dimensions : ℕ → Failure
  unknown_type : ℕ → Failure
  bad_row : Failure

pub data Program {ℓ} (A : Type ℓ) : Type ℓ where
  ret : A → Program A
  throw : Failure → Program A
  request : (offset count : ℕ) → (List ℕ → Program A) → Program A

unfoldable pub then_ {ℓ} : {A B : Type ℓ} → Program A → (A → Program B) → Program B
then_ (ret a) f = f a
then_ (throw e) f = throw e
then_ (request offset count k) f = request offset count (λ bytes. then_ (k bytes) f)

-- A reader, at an offset.
abbrev pub Reader {ℓ} : Type ℓ → Type ℓ
Reader A = ℕ → Program (A × ℕ)

abbrev pub pure {ℓ} : {A : Type ℓ} → A → Reader A
pure a offset = ret (a, offset)

abbrev pub error {ℓ} : {A : Type ℓ} → Failure → Reader A
error e offset = throw e

infixl 20 ◌>>=◌
abbrev pub ◌>>=◌ {ℓ} : {A B : Type ℓ} → Reader A → (A → Reader B) → Reader B
(r >>= f) offset = then_ (r offset) (λ p. f p.0 p.1)

-- The cursor's offset.
abbrev pub tell : Reader ℕ
tell offset = ret (offset, offset)

-- `view(count)` and the step over what was read.
abbrev pub bytes : ℕ → Reader (List ℕ)
bytes count offset = request offset count (λ b. ret (b, offset + count))
