-- ===== src/CrossCheck/Values.antt =====
-- The values that scripts/crosscheck-gguf-probe.mjs compares: JSON, `String`, `===` and sameNumber.
--
-- A number is a value of the type `D` of doubles, whose operations are the parameter `Doubles`. A value
-- that is absent is `undefined`.
use dip_distributed_llm_runt.Prelude.{
  ℕ, Bool, true, false, not, ◌||◌, if◌then◌else◌, List, Option, none, some, ℕ_discrete,
}
use dip_distributed_llm_runt.Prelude.Text.{codes}

abbrev pub Text : Type 0
Text = List ℕ

unfoldable pub Text-discrete : Discrete Text
Text-discrete = hlevel ℕ_discrete

-- The operations of doubles that the comparison uses: `Number(text)`, `String(number)`, Number.isFinite,
-- `===`, `<=`, Math.abs, Math.max, `-`, `*`, and the slack 1e-9.
pub record Doubles (D : Type 0) : Type 0 where
  pub number : Text → D
  pub print : D → Text
  pub is_finite : D → Bool
  pub same : D → D → Bool
  pub at_most : D → D → Bool
  pub abs : D → D
  pub max : D → D → D
  pub minus : D → D → D
  pub times : D → D → D
  pub slack : D

-- A JSON value, or `undefined`. Of an array or an object only what `String` makes of it matters.
pub data Json (D : Type 0) : Type 0 where
  text : Text → Json D
  number : D → Json D
  boolean : Bool → Json D
  null : Json D
  absent : Json D
  compound : (printed : Text) → Json D

abbrev pub decided : {A : Type 0} → Dec A → Bool
decided (yes p) = true
decided (no n) = false

abbrev pub same_text : Text → Text → Bool
same_text a b = decided (Text-discrete a b)

unfoldable pub is_string : {D : Type 0} → Json D → Bool
is_string (text s) = true
is_string v = false

unfoldable pub is_boolean : {D : Type 0} → Json D → Bool
is_boolean (boolean b) = true
is_boolean v = false

-- `String(value)`
unfoldable pub string_of : {D : Type 0} → Doubles D → Json D → Text
string_of ops (text s) = s
string_of ops (number d) = ops.print d
string_of ops (boolean true) = codes "true"
string_of ops (boolean false) = codes "false"
string_of ops null = codes "null"
string_of ops absent = codes "undefined"
string_of ops (compound printed) = printed

-- `a === b`; two arrays or objects from different JSON texts are never the same.
unfoldable pub strict_equal : {D : Type 0} → Doubles D → Json D → Json D → Bool
strict_equal ops (text a) (text b) = same_text a b
strict_equal ops (number a) (number b) = ops.same a b
strict_equal ops (boolean a) (boolean b) = if a then b else not b
strict_equal ops null null = true
strict_equal ops absent absent = true
strict_equal ops a b = false

-- `typeof a === "string" ? Number(a) : a`, where it is a number.
unfoldable pub as_number : {D : Type 0} → Doubles D → Json D → Option D
as_number ops (text s) = some (ops.number s)
as_number ops (number d) = some d
as_number ops v = none

unfoldable pub close_to : {D : Type 0} → Doubles D → D → D → Bool
close_to ops x y =
    if not (ops.is_finite x) || not (ops.is_finite y)
    then false
    else if ops.same x y
    then true
    else ops.at_most (ops.abs (ops.minus x y))
        (ops.times (ops.max (ops.abs x) (ops.abs y)) ops.slack)

unfoldable pub same_number : {D : Type 0} → Doubles D → Json D → Json D → Bool
same_number ops a b = elim (as_number ops a) [
  | none ↦ false
  | some x ↦ elim (as_number ops b) [ none ↦ false | some y ↦ close_to ops x y ]
]
