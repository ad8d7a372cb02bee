-- ===== src/Prelude/Decimal.antt =====
-- Numbers in decimal digits: what JavaScript prints for a whole number, and what it reads.
use Prim.Native.Nat.{ℕ, zero, suc, ◌+◌, ◌*◌, ◌-◌, ◌/◌, ◌%◌, ◌≤◌}
use mathlib.Core.Path.{◌≡◌, ap, ◌∙◌, sym}
use mathlib.Core.Logic.{inl, inr}
use mathlib.Core.Option.{Option, none, some}
use mathlib.Core.List.{List, [], ◌∷◌, ◌++◌}
use native.Mathlib.Omega.{arith}
use dip_distributed_llm_runt.Prelude.Tests.{ltb, if◌then◌else◌, Bool-cases}
use dip_distributed_llm_runt.Prelude.Text.{is_digit}

-- `Number(text)` for a text of decimal digits.
unfoldable pub read_digits : ℕ → List ℕ → Option ℕ
read_digits value [] = some value
read_digits value (c ∷ cs) =
    let rest = read_digits (value * 10 + (c - b'0')) cs in if is_digit c then rest else none

unfoldable pub decimal_from : ℕ → ℕ → List ℕ
decimal_from zero n = (b'0' + n % 10) ∷ []
decimal_from (suc fuel) n =
    let front = decimal_from fuel (n / 10) in
    if ltb n 10 then (b'0' + n) ∷ [] else front ++ ((b'0' + n % 10) ∷ [])

-- A number in decimal digits.
unfoldable pub decimal : ℕ → List ℕ
decimal n = decimal_from n n

read_digits-append :
    (value : ℕ) (xs : List ℕ) (d n : ℕ)
    → d ≤ 9
    → read_digits value xs ≡ some n
    → read_digits value (xs ++ ((b'0' + d) ∷ [])) ≡ some (n * 10 + d)
unfolding read_digits
read_digits-append value [] d n h e = ground arith
read_digits-append value (x ∷ xs) d n h e = elim (Bool-cases (is_digit x)) [
  | inl f ↦ rw f (read_digits-append (value * 10 + (x - b'0')) xs d n h (rw f at e))
  | inr f ↦ absurd (cc (rw f at e))
]

read_decimal_from : (fuel n : ℕ) → n ≤ fuel → read_digits 0 (decimal_from fuel n) ≡ some n
unfolding decimal_from read_digits
read_decimal_from zero n h = ground arith
read_decimal_from (suc fuel) n h = elim (Bool-cases (ltb n 10)) [
  | inl e ↦ ground (arith, e)
  | inr e ↦ rw e (
      read_digits-append 0 (decimal_from fuel (n / 10)) (n % 10) (n / 10) (omega arith)
        (read_decimal_from fuel (n / 10) (ground arith))
      ∙ ap some (omega arith))
]

pub read_decimal : (n : ℕ) → read_digits 0 (decimal n) ≡ some n
unfolding decimal
read_decimal n = read_decimal_from n n (omega arith)

pub decimal_inj : (m n : ℕ) → decimal m ≡ decimal n → m ≡ n
decimal_inj m n h =
    let same : some m ≡ some n = sym (read_decimal m) ∙ ap (read_digits 0) h ∙ read_decimal n in
    cc same
