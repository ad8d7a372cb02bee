-- ===== src/CrossCheck/Strict.antt =====
-- `===` of scripts/crosscheck-gguf-probe.mjs on JSON values, told apart from its test.
use dip_distributed_llm_runt.Prelude.{
  ◌≡◌, ◌↔◌, refl, Bool, true, false, not, if◌then◌else◌, subst, arith,
}
use dip_distributed_llm_runt.CrossCheck.Values.{
  Text, Doubles, Json, text, number, boolean, null, absent, compound, strict_equal,
}
use dip_distributed_llm_runt.CrossCheck.Agreement.{same_text_iff}

-- Equal without a conversion.
pub data StrictlySame {D : Type 0} (ops : Doubles D) : Json D → Json D → Type 0 where
  texts : (s : Text) → StrictlySame ops (text s) (text s)
  numbers : (x y : D) → ops.same x y ≡ true → StrictlySame ops (number x) (number y)
  booleans : (p : Bool) → StrictlySame ops (boolean p) (boolean p)
  nulls : StrictlySame ops null null
  absents : StrictlySame ops absent absent

same_boolean : (p q : Bool) → (if p then q else not q) ≡ true → p ≡ q
same_boolean p q e = ground (arith, e)

from_strict :
    {D : Type 0} (ops : Doubles D) (a b : Json D)
    → strict_equal ops a b ≡ true
    → StrictlySame ops a b
unfolding strict_equal
from_strict ops (text s) (text t) e =
    subst (λ k. StrictlySame ops (text s) (text k)) ((same_text_iff s t).0 e) (texts s)
from_strict ops (text s) (number y) e = absurd (cc e)
from_strict ops (text s) (boolean q) e = absurd (cc e)
from_strict ops (text s) null e = absurd (cc e)
from_strict ops (text s) absent e = absurd (cc e)
from_strict ops (text s) (compound d) e = absurd (cc e)
from_strict ops (number x) (text t) e = absurd (cc e)
from_strict ops (number x) (number y) e = numbers x y e
from_strict ops (number x) (boolean q) e = absurd (cc e)
from_strict ops (number x) null e = absurd (cc e)
from_strict ops (number x) absent e = absurd (cc e)
from_strict ops (number x) (compound d) e = absurd (cc e)
from_strict ops (boolean p) (text t) e = absurd (cc e)
from_strict ops (boolean p) (number y) e = absurd (cc e)
from_strict ops (boolean p) (boolean q) e =
    subst (λ k. StrictlySame ops (boolean p) (boolean k)) (same_boolean p q e) (booleans p)
from_strict ops (boolean p) null e = absurd (cc e)
from_strict ops (boolean p) absent e = absurd (cc e)
from_strict ops (boolean p) (compound d) e = absurd (cc e)
from_strict ops null (text t) e = absurd (cc e)
from_strict ops null (number y) e = absurd (cc e)
from_strict ops null (boolean q) e = absurd (cc e)
from_strict ops null null e = nulls
from_strict ops null absent e = absurd (cc e)
from_strict ops null (compound d) e = absurd (cc e)
from_strict ops absent (text t) e = absurd (cc e)
from_strict ops absent (number y) e = absurd (cc e)
from_strict ops absent (boolean q) e = absurd (cc e)
from_strict ops absent null e = absurd (cc e)
from_strict ops absent absent e = absents
from_strict ops absent (compound d) e = absurd (cc e)
from_strict ops (compound c) (text t) e = absurd (cc e)
from_strict ops (compound c) (number y) e = absurd (cc e)
from_strict ops (compound c) (boolean q) e = absurd (cc e)
from_strict ops (compound c) null e = absurd (cc e)
from_strict ops (compound c) absent e = absurd (cc e)
from_strict ops (compound c) (compound d) e = absurd (cc e)

to_strict :
    {D : Type 0} (ops : Doubles D) (a b : Json D)
    → StrictlySame ops a b
    → strict_equal ops a b ≡ true
unfolding strict_equal
to_strict ops _ _ (texts s) = (same_text_iff s s).1 refl
to_strict ops _ _ (numbers x y e) = e
to_strict ops _ _ (booleans true) = refl
to_strict ops _ _ (booleans false) = refl
to_strict ops _ _ nulls = refl
to_strict ops _ _ absents = refl

pub strict_equal_iff :
    {D : Type 0} (ops : Doubles D) (a b : Json D)
    → (strict_equal ops a b ≡ true) ↔ StrictlySame ops a b
strict_equal_iff ops a b = (from_strict ops a b, to_strict ops a b)
