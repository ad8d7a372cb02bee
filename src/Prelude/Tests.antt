-- ===== src/Prelude/Tests.antt =====
-- Boolean tests on the native numbers, equality of texts, and the conditional.
use Prim.Native.Nat.{ℕ, ◌<◌, compare, Ordering}
use Prim.Native.String.{String}
use text.Mathlib.Text.{◌==◌ as str_eq}
use text.Mathlib.TextEquality.{eq_iff}
use mathlib.Core.Path.{◌≡◌, refl}
use mathlib.Core.Logic.{◌↔◌, ◌⊎◌, inl, inr, ite, if_pos, if_neg}
use mathlib.Core.Bool.{Bool, true, false}
use mathlib.Core.Option.{Option, none, some}
use native.Mathlib.Omega.{arith}

-- These compute to `compare`, which `ground` and `grind` read with no lemma listed.
abbrev pub ltb : ℕ → ℕ → Bool
ltb a b = elim (compare a b) [ Ordering.lt ↦ true | _ ↦ false ]

abbrev pub leb : ℕ → ℕ → Bool
leb a b = elim (compare a b) [ Ordering.gt ↦ false | _ ↦ true ]

infix 50 ◌==◌
abbrev pub ◌==◌ : ℕ → ℕ → Bool
a == b = elim (compare a b) [ Ordering.eq ↦ true | _ ↦ false ]

infix 1 if◌then◌else◌
abbrev pub if◌then◌else◌ {ℓ} : {A : Type ℓ} → Bool → A → A → A
if true then x else y = x
if false then x else y = y

pub ltb→lt : (a b : ℕ) → ltb a b ≡ true → a < b
ltb→lt a b h = ground arith

pub lt→ltb : (a b : ℕ) → a < b → ltb a b ≡ true
lt→ltb a b h = ground arith

pub ==_iff : (a b : ℕ) → ((a == b) ≡ true) ↔ (a ≡ b)
==_iff a b = ground arith

pub Bool-cases : (b : Bool) → (b ≡ true) ⊎ (b ≡ false)
Bool-cases true = inl refl
Bool-cases false = inr refl

pub Option-cases {ℓ} : {A : Type ℓ} (o : Option A) → (o ≡ none) ⊎ ((a : A) × (o ≡ some a))
Option-cases none = inl refl
Option-cases (some a) = inr (a, refl)

pub text_apart : (s t : String) → str_eq s t ≡ false → ¬ (s ≡ t)
text_apart s t h e = cc (h, (eq_iff s t).1 e)

decide_text : (s t : String) (b : Bool) → str_eq s t ≡ b → Dec (s ≡ t)
decide_text s t true e = yes ((eq_iff s t).0 e)
decide_text s t false e = no (λ p. cc (e, (eq_iff s t).1 p))

unfoldable pub text_discrete : Discrete String
unfolding decide_text
text_discrete s t = decide_text s t (str_eq s t) refl

-- A claim about a branch on a decision, from the claim on either side.
pub ite-cases {ℓ κ μ} :
    {X : Type ℓ} {A : Type κ} (P : X → Type μ) (d : Dec A) {x y : X}
    → (A → P x)
    → (¬ A → P y)
    → P (ite d x y)
ite-cases P (yes a) f g = rw (if_pos _ a) (f a)
ite-cases P (no a) f g = rw (if_neg _ a) (g a)

pub if-cases {ℓ μ} :
    {X : Type ℓ} (P : X → Type μ) (b : Bool) {x y : X}
    → (b ≡ true → P x)
    → (b ≡ false → P y)
    → P (if b then x else y)
if-cases P true f g = f refl
if-cases P false f g = g refl
