-- ===== src/CrossCheck/Same.antt =====
-- What it means that two values agree, told apart from the tests of scripts/crosscheck-gguf-probe.mjs.
use dip_distributed_llm_runt.Prelude.{
  ◌≡◌, ◌↔◌, ◌⊎◌, refl, inl, inr, Bool, true, false, ◌||◌, if◌then◌else◌, some, Option-cases, arith,
}
use dip_distributed_llm_runt.CrossCheck.Values.{
  Text, Doubles, Json, text, number, boolean, null, absent, compound, same_text, is_string,
  is_boolean, string_of, as_number, close_to, same_number,
}
use dip_distributed_llm_runt.CrossCheck.{same_item, same_hparam}
use dip_distributed_llm_runt.CrossCheck.Agreement.{same_text_iff}

abbrev pub IsText : {D : Type 0} → Json D → Type 0
IsText v = (s : Text) × (v ≡ text s)

abbrev pub IsTruth : {D : Type 0} → Json D → Type 0
IsTruth v = (b : Bool) × (v ≡ boolean b)

-- Both print alike.
abbrev pub PrintAlike : {D : Type 0} → Doubles D → Json D → Json D → Type 0
PrintAlike ops a b = string_of ops a ≡ string_of ops b

-- Both are finite, and they are the same or as near as the slack allows.
abbrev pub Near : {D : Type 0} → Doubles D → D → D → Type 0
Near ops x y =
    (ops.is_finite x ≡ true)
    × (ops.is_finite y ≡ true)
    × ((ops.same x y ≡ true)
        ⊎ (ops.at_most (ops.abs (ops.minus x y))
              (ops.times (ops.max (ops.abs x) (ops.abs y)) ops.slack)
            ≡ true))

-- A number, or the text of one.
abbrev pub CountsAs : {D : Type 0} → Doubles D → Json D → D → Type 0
CountsAs ops v x = (v ≡ number x) ⊎ ((s : Text) × (v ≡ text s) × (ops.number s ≡ x))

is_string_iff : {D : Type 0} (v : Json D) → (is_string v ≡ true) ↔ IsText v
unfolding is_string
is_string_iff (text s) = (λ e. (s, refl), λ h. refl)
is_string_iff (number x) = (λ e. absurd (cc e), λ (s, h). absurd (cc h))
is_string_iff (boolean p) = (λ e. absurd (cc e), λ (s, h). absurd (cc h))
is_string_iff null = (λ e. absurd (cc e), λ (s, h). absurd (cc h))
is_string_iff absent = (λ e. absurd (cc e), λ (s, h). absurd (cc h))
is_string_iff (compound c) = (λ e. absurd (cc e), λ (s, h). absurd (cc h))

is_boolean_iff : {D : Type 0} (v : Json D) → (is_boolean v ≡ true) ↔ IsTruth v
unfolding is_boolean
is_boolean_iff (boolean p) = (λ e. (p, refl), λ h. refl)
is_boolean_iff (number x) = (λ e. absurd (cc e), λ (s, h). absurd (cc h))
is_boolean_iff (text s) = (λ e. absurd (cc e), λ (s, h). absurd (cc h))
is_boolean_iff null = (λ e. absurd (cc e), λ (s, h). absurd (cc h))
is_boolean_iff absent = (λ e. absurd (cc e), λ (s, h). absurd (cc h))
is_boolean_iff (compound c) = (λ e. absurd (cc e), λ (s, h). absurd (cc h))

as_number_iff :
    {D : Type 0} (ops : Doubles D) (v : Json D) (x : D)
    → (as_number ops v ≡ some x) ↔ CountsAs ops v x
unfolding as_number
as_number_iff ops (text s) x = (
  (λ e. inr (s, refl, cc e)),
  (λ h. elim h [
    | inl e ↦ absurd (cc e)
    | inr (t, e, f) ↦ (let same : s ≡ t = cc e in cc (same, f))
  ]),
)
as_number_iff ops (number y) x = (
  (λ e. let same : y ≡ x = cc e in inl (cc same)),
  (λ h. elim h [ inl e ↦ (let same : y ≡ x = cc e in cc same) | inr (t, e, f) ↦ absurd (cc e) ]),
)
as_number_iff ops (boolean p) x =
    ((λ e. absurd (cc e)), (λ h. elim h [ inl e ↦ absurd (cc e) | inr (t, e, f) ↦ absurd (cc e) ]))
as_number_iff ops null x =
    ((λ e. absurd (cc e)), (λ h. elim h [ inl e ↦ absurd (cc e) | inr (t, e, f) ↦ absurd (cc e) ]))
as_number_iff ops absent x =
    ((λ e. absurd (cc e)), (λ h. elim h [ inl e ↦ absurd (cc e) | inr (t, e, f) ↦ absurd (cc e) ]))
as_number_iff ops (compound c) x =
    ((λ e. absurd (cc e)), (λ h. elim h [ inl e ↦ absurd (cc e) | inr (t, e, f) ↦ absurd (cc e) ]))

close_to_iff : {D : Type 0} (ops : Doubles D) (x y : D) → (close_to ops x y ≡ true) ↔ Near ops x y
unfolding close_to
close_to_iff ops x y = (λ e. ground (arith, e), λ h. ground (arith, h))

-- Both count as numbers, and these are near.
abbrev pub NearNumbers : {D : Type 0} → Doubles D → Json D → Json D → Type 0
NearNumbers {D} ops a b = (x y : D) × CountsAs ops a x × CountsAs ops b y × Near ops x y

same_number_iff :
    {D : Type 0} (ops : Doubles D) (a b : Json D)
    → (same_number ops a b ≡ true) ↔ NearNumbers ops a b
unfolding same_number
same_number_iff ops a b = elim (Option-cases (as_number ops a)) [
  | inl e ↦
      rw (same_number, e)
        (
          (λ q. absurd (cc q)),
          (λ (x, y, p, q, r). absurd (let at = (as_number_iff ops a x).1 p in cc (e, at))),
        )
  | inr (x, e) ↦ elim (Option-cases (as_number ops b)) [
    | inl f ↦
        rw (same_number, e, f)
          (
            (λ q. absurd (cc q)),
            (λ (x', y, p, q, r). absurd (let at = (as_number_iff ops b y).1 q in cc (f, at))),
          )
    | inr (y, f) ↦
        rw (same_number, e, f)
          (
            (λ q. (
              x,
              y,
              (as_number_iff ops a x).0 e,
              (as_number_iff ops b y).0 f,
              (close_to_iff ops x y).0 q,
            )),
            (λ (x', y', p, q, r).
                let near = (close_to_iff ops x' y').1 r in
                let at = (as_number_iff ops a x').1 p in
                let at' = (as_number_iff ops b y').1 q in
                let same : x ≡ x' = cc (e, at) in
                let same' : y ≡ y' = cc (f, at') in cc (near, same, same')),
          )
  ]
]

-- Items of an array: as texts where one of them is a text, and else as numbers. So two booleans, whose print is
-- not asked for and which do not count as numbers, never agree.
abbrev pub SameItem : {D : Type 0} → Doubles D → Json D → Json D → Type 0
SameItem ops s v =
    ((IsText s ⊎ IsText v) × PrintAlike ops s v) ⊎ ((IsText s ⊎ IsText v → ⊥) × NearNumbers ops s v)

-- Fields of one value: as texts where one is a boolean or gguf-py has a text, and else as numbers.
abbrev pub SameField : {D : Type 0} → Doubles D → Json D → Json D → Type 0
SameField ops value dv =
    (((IsTruth value ⊎ IsTruth dv) ⊎ IsText dv) × PrintAlike ops value dv)
    ⊎ (((IsTruth value ⊎ IsTruth dv) ⊎ IsText dv → ⊥) × NearNumbers ops value dv)

-- A test that decides between the two ways of comparing.
either_way :
    {D : Type 0} (ops : Doubles D) (a b : Json D) (by_text : Bool) (C : Type 0)
    → (by_text ≡ true) ↔ C
    → ((if by_text then same_text (string_of ops a) (string_of ops b) else same_number ops a b)
        ≡ true)
      ↔ ((C × PrintAlike ops a b) ⊎ ((C → ⊥) × NearNumbers ops a b))
either_way ops a b true C way =
    let texts_same = same_text_iff (string_of ops a) (string_of ops b) in
    (
      (λ e. inl (way.0 refl, texts_same.0 e)),
      (λ h. elim h [ inl (c, p) ↦ texts_same.1 p | inr (n, p) ↦ absurd (n (way.0 refl)) ]),
    )
either_way ops a b false C way =
    let numbers_same = same_number_iff ops a b in
    (
      (λ e. inr ((λ c. cc (way.1 c)), numbers_same.0 e)),
      (λ h. elim h [ inl (c, p) ↦ absurd (cc (way.1 c)) | inr (n, p) ↦ numbers_same.1 p ]),
    )

or_iff : (a b : Bool) (A B : Type 0) → (a ≡ true) ↔ A → (b ≡ true) ↔ B → ((a || b) ≡ true) ↔ (A ⊎ B)
or_iff true b A B p q = (λ e. inl (p.0 refl), λ h. refl)
or_iff false b A B p q =
    ((λ e. inr (q.0 e)), (λ h. elim h [ inl a ↦ absurd (cc (p.1 a)) | inr c ↦ q.1 c ]))

pub same_item_iff :
    {D : Type 0} (ops : Doubles D) (s v : Json D) → (same_item ops s v ≡ true) ↔ SameItem ops s v
unfolding same_item
same_item_iff ops s v =
    either_way ops s v (is_string s || is_string v) (IsText s ⊎ IsText v)
      (or_iff (is_string s) (is_string v) (IsText s) (IsText v) (is_string_iff s) (is_string_iff v))

pub same_hparam_iff :
    {D : Type 0} (ops : Doubles D) (value dv : Json D)
    → (same_hparam ops value dv ≡ true) ↔ SameField ops value dv
unfolding same_hparam
same_hparam_iff ops value dv =
    let truths =
      or_iff (is_boolean value) (is_boolean dv) (IsTruth value) (IsTruth dv) (is_boolean_iff value)
        (is_boolean_iff dv) in
    either_way ops value dv (is_boolean value || is_boolean dv || is_string dv)
      ((IsTruth value ⊎ IsTruth dv) ⊎ IsText dv)
      (or_iff (is_boolean value || is_boolean dv) (is_string dv) (IsTruth value ⊎ IsTruth dv)
        (IsText dv) truths (is_string_iff dv))
