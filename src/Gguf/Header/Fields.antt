-- ===== src/Gguf/Header/Fields.antt =====
-- The readers of numbers, texts and metadata fields on what the format writes.
use native.Mathlib.Nat.{div-add-mod}
use dip_distributed_llm_runt.Prelude.{
  ℕ, zero, suc, ◌+◌, ◌*◌, ◌/◌, ◌^◌, ◌<◌, ◌≡◌, refl, ap, subst, false, List, length, some, ltb,
  arith,
}
use dip_distributed_llm_runt.Gguf.Program.{pure, ◌>>=◌, bytes}
use dip_distributed_llm_runt.Gguf.Header.{
  little_endian, u32, u64, form, scalar, string, max_safe_integer,
}
use dip_distributed_llm_runt.Gguf.Header.Tables.{scalar_width}
use dip_distributed_llm_runt.Gguf.Header.Parsing.{
  Parses, Parses-bytes, Parses-bind, Parses-map, Parses-tell,
}
use dip_distributed_llm_runt.Gguf.Header.Writing.{le, write_string, IsShort}

pub length-le : (count n : ℕ) → length (le count n) ≡ count
length-le zero n = refl
length-le (suc count) n = ap suc (length-le count (n / 256))

little_endian-le : (count n : ℕ) → n < 256 ^ count → little_endian (le count n) ≡ n
unfolding little_endian
little_endian-le zero n h = ground arith
little_endian-le (suc count) n h =
    let power : 256 ^ suc count ≡ 256 * 256 ^ count = omega arith in
    let rest = little_endian-le count (n / 256) (omega (arith, power)) in
    rw rest (omega (arith, div-add-mod n 256))

Parses-width : (offset count n : ℕ) → Parses offset (bytes count) (le count n) (le count n)
Parses-width offset count n =
    subst (λ c. Parses offset (bytes c) (le count n) (le count n)) (length-le count n)
      (Parses-bytes offset (le count n))

-- A number of `count` bytes.
pub Parses-le :
    (offset count n : ℕ)
    → n < 256 ^ count
    → Parses offset (bytes count >>= λ b. pure (little_endian b)) (le count n) n
Parses-le offset count n h =
    subst (Parses offset (bytes count >>= λ b. pure (little_endian b)) (le count n))
      (little_endian-le count n h)
      (Parses-map offset (bytes count) little_endian (le count n) (le count n)
        (Parses-width offset count n))

pub Parses-u32 : (offset n : ℕ) → n < 256 ^ 4 → Parses offset u32 (le 4 n) n
unfolding u32
Parses-u32 offset n h = Parses-le offset 4 n h

pub Parses-u64 : (offset n : ℕ) → n < 256 ^ 8 → Parses offset u64 (le 8 n) n
unfolding u64
Parses-u64 offset n h = Parses-le offset 8 n h

pub Parses-string : (offset : ℕ) (s : List ℕ) → IsShort s → Parses offset string (write_string s) s
unfolding string
Parses-string offset s h =
    let short : ltb max_safe_integer (length s) ≡ false = ground arith in
    Parses-bind offset u64 _ (le 8 (length s)) s (length s) s
      (Parses-u64 offset (length s) (omega arith))
      (Parses-tell (offset + length (le 8 (length s))) _ s s
        (rw short (Parses-bytes (offset + length (le 8 (length s))) s)))

pub Parses-scalar :
    (offset type width bits : ℕ)
    → scalar_width type ≡ some width
    → bits < 256 ^ width
    → Parses offset (scalar type) (le width bits) (form type bits)
unfolding scalar
Parses-scalar offset type width bits e h =
    rw (scalar, e)
      (subst
        (Parses offset (bytes width >>= λ b. pure (form type (little_endian b))) (le width bits))
        (ap (form type) (little_endian-le width bits h))
        (Parses-map offset (bytes width) (λ b. form type (little_endian b)) (le width bits)
          (le width bits) (Parses-width offset width bits)))
