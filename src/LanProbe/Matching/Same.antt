-- ===== src/LanProbe/Matching/Same.antt =====
-- The probe's `===` on texts and on nullable texts and numbers decides equality.
use dip_distributed_llm_runt.Prelude.{ℕ, ◌≡◌, refl, ap, true, [], ◌∷◌, Option, none, some, arith}
use dip_distributed_llm_runt.LanProbe.Candidates.{Text, same_text}
use dip_distributed_llm_runt.LanProbe.Matching.{same_text?, same_number?}

pub same_text_eq : (a b : Text) → same_text a b ≡ true → a ≡ b
unfolding same_text
same_text_eq [] [] h = refl
same_text_eq [] (d ∷ ds) h = absurd (cc h)
same_text_eq (c ∷ cs) [] h = absurd (cc h)
same_text_eq (c ∷ cs) (d ∷ ds) h = ground (arith, same_text_eq cs ds)

pub same_text_refl : (a : Text) → same_text a a ≡ true
unfolding same_text
same_text_refl [] = refl
same_text_refl (c ∷ cs) = ground (arith, same_text_refl cs)

pub same_text?_eq : (a b : Option Text) → same_text? a b ≡ true → a ≡ b
same_text?_eq none none h = refl
same_text?_eq none (some b) h = absurd (cc h)
same_text?_eq (some a) none h = absurd (cc h)
same_text?_eq (some a) (some b) h = ap some (same_text_eq a b h)

pub same_text?_refl : (a : Option Text) → same_text? a a ≡ true
same_text?_refl none = refl
same_text?_refl (some a) = same_text_refl a

pub same_number?_eq : (a b : Option ℕ) → same_number? a b ≡ true → a ≡ b
same_number?_eq a b h = ground arith

pub same_number?_refl : (a : Option ℕ) → same_number? a a ≡ true
same_number?_refl none = refl
same_number?_refl (some a) = ground arith
