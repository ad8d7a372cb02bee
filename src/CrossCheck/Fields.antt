-- ===== src/CrossCheck/Fields.antt =====
-- Agreement on metadata: the fields of one value and the arrays of scripts/crosscheck-gguf-probe.mjs.
use dip_distributed_llm_runt.Prelude.{
  ℕ, ◌+◌, ◌≡◌, ◌↔◌, ◌⊎◌, inl, inr, refl, Bool, true, List, [], ◌∷◌, ◌++◌, some, ◌==◌, length, arith,
  Bool-cases, Option-cases,
}
use dip_distributed_llm_runt.Prelude.Text.{codes}
use dip_distributed_llm_runt.Prelude.Dict
use dip_distributed_llm_runt.Prelude.Dict.{Dict}
use dip_distributed_llm_runt.CrossCheck.Values.{
  Text, Text-discrete, Doubles, Json, absent, same_text,
}
use dip_distributed_llm_runt.CrossCheck.{
  ArrayField, Content, plain, items, Field, Problem, note_unless, content_json, template_key,
  same_hparam, check_hparam, same_item, check_items, check_array,
}
use dip_distributed_llm_runt.CrossCheck.Same.{SameItem, SameField, same_item_iff, same_hparam_iff}
use dip_distributed_llm_runt.CrossCheck.Agreement.{note_unless_iff, both_nil_iff, same_text_iff}

-- The chat template is passed over; any other field is one of gguf-py with the same value.
abbrev pub HparamAgrees : {D : Type 0} → Doubles D → Dict Text (Field D) → Text × Json D → Type 0
HparamAgrees {D} ops metadata (key, value) =
    (key ≡ template_key)
    ⊎ ((f : Field D) × (Dict.get Text-discrete key metadata ≡ some f)
        × SameField ops value (content_json f.content))

pub check_hparam-HparamAgrees :
    {D : Type 0} (ops : Doubles D) (metadata : Dict Text (Field D)) (h : Text × Json D)
    → (check_hparam ops metadata h ≡ []) ↔ HparamAgrees ops metadata h
unfolding check_hparam
check_hparam-HparamAgrees ops metadata (key, value) = elim (Text-discrete key template_key) [
  | yes p ↦
      let skipped : same_text key template_key ≡ true = (same_text_iff key template_key).1 p in
      rw (check_hparam, skipped) ((λ q. inl p), (λ h. refl))
  | no n ↦ elim (Bool-cases (same_text key template_key)) [
    | inl e ↦ absurd (n ((same_text_iff key template_key).0 e))
    | inr e ↦ elim (Option-cases (Dict.get Text-discrete key metadata)) [
      | inl r ↦
          rw (check_hparam, e, r)
            (
              (λ q. absurd (cc q)),
              (λ h. elim h [ inl p ↦ absurd (n p) | inr (f, q, s) ↦ absurd (cc q) ]),
            )
      | inr (f, r) ↦
          let value_ok =
            note_unless_iff (same_hparam ops value (content_json f.content))
              (Problem.hparam_differs key) in
          let same = same_hparam_iff ops value (content_json f.content) in
          rw (check_hparam, e, r)
            (
              (λ q. inr (f, refl, same.0 (value_ok.0 q))),
              (λ h. elim h [
                | inl p ↦ absurd (n p)
                | inr (f', q, s) ↦
                    let one : f ≡ f' = cc q in
                    let s' : SameField ops value (content_json f.content) = rw one s in
                    value_ok.1 (same.1 s')
              ]),
            )
    ]
  ]
]

-- Each sampled item is the element at its place.
abbrev pub ItemsAgree : {D : Type 0} → Doubles D → List (Json D) → List (Json D) → Type 0
ItemsAgree ops [] vs = Unit
ItemsAgree ops (s ∷ ss) [] = SameItem ops s absent × ItemsAgree ops ss []
ItemsAgree ops (s ∷ ss) (v ∷ vs) = SameItem ops s v × ItemsAgree ops ss vs

pub item_then :
    (ok : Bool) (p : Problem) (rest : List Problem) (A P : Type 0)
    → (ok ≡ true) ↔ A
    → (rest ≡ []) ↔ P
    → (note_unless ok p ++ rest ≡ []) ↔ (A × P)
item_then ok p rest A P a h =
    let note = note_unless_iff ok p in
    both_nil_iff (note_unless ok p) rest A P ((λ e. a.0 (note.0 e)), (λ x. note.1 (a.1 x))) h

check_items-ItemsAgree :
    {D : Type 0} (ops : Doubles D) (key : Text) (i : ℕ) (ss vs : List (Json D))
    → (check_items ops key i ss vs ≡ []) ↔ ItemsAgree ops ss vs
unfolding check_items
check_items-ItemsAgree ops key i [] vs = ((λ e. tt), (λ e. refl))
check_items-ItemsAgree ops key i (s ∷ ss) [] =
    item_then (same_item ops s absent) (Problem.array_item key i)
      (check_items ops key (i + 1) ss []) (SameItem ops s absent) (ItemsAgree ops ss [])
      (same_item_iff ops s absent) (check_items-ItemsAgree ops key (i + 1) ss [])
check_items-ItemsAgree ops key i (s ∷ ss) (v ∷ vs) =
    item_then (same_item ops s v) (Problem.array_item key i) (check_items ops key (i + 1) ss vs)
      (SameItem ops s v) (ItemsAgree ops ss vs) (same_item_iff ops s v)
      (check_items-ItemsAgree ops key (i + 1) ss vs)

-- An array of gguf-py with as many elements and with the sample at its head.
abbrev pub ContentAgrees : {D : Type 0} → Doubles D → ArrayField D → Content D → Type 0
ContentAgrees ops arr (plain v) = ⊥
ContentAgrees ops arr (items printed vs) = (length vs ≡ arr.length_) × ItemsAgree ops arr.sample vs

abbrev pub ArrayAgrees :
    {D : Type 0} → Doubles D → Dict Text (Field D) → Text × ArrayField D → Type 0
ArrayAgrees {D} ops metadata (key, arr) =
    (f : Field D) × (Dict.get Text-discrete key metadata ≡ some f)
    × (f.type_name ≡ codes "ARRAY")
    × ContentAgrees ops arr f.content

abbrev content_problems : {D : Type 0} → Doubles D → Text → ArrayField D → Content D → List Problem
content_problems ops key arr content = elim content [
  | plain v ↦ Problem.array_no_value key ∷ []
  | items printed vs ↦
      note_unless (length vs == arr.length_) (Problem.array_length key)
      ++ check_items ops key 0 arr.sample vs
]

content_problems-ContentAgrees :
    {D : Type 0} (ops : Doubles D) (key : Text) (arr : ArrayField D) (c : Content D)
    → (content_problems ops key arr c ≡ []) ↔ ContentAgrees ops arr c
content_problems-ContentAgrees ops key arr (plain v) = ((λ q. absurd (cc q)), (λ h. absurd h))
content_problems-ContentAgrees ops key arr (items printed vs) =
    item_then (length vs == arr.length_) (Problem.array_length key)
      (check_items ops key 0 arr.sample vs) (length vs ≡ arr.length_) (ItemsAgree ops arr.sample vs)
      ((λ e. ground (arith, e)), (λ e. ground (arith, e)))
      (check_items-ItemsAgree ops key 0 arr.sample vs)

pub check_array-ArrayAgrees :
    {D : Type 0} (ops : Doubles D) (metadata : Dict Text (Field D)) (a : Text × ArrayField D)
    → (check_array ops metadata a ≡ []) ↔ ArrayAgrees ops metadata a
unfolding check_array
check_array-ArrayAgrees ops metadata (key, arr) =
    elim (Option-cases (Dict.get Text-discrete key metadata)) [
      | inl r ↦ rw (check_array, r) ((λ q. absurd (cc q)), (λ (f, q, s, t). absurd (cc q)))
      | inr (f, r) ↦
          let content = content_problems-ContentAgrees ops key arr f.content in
          let kind = same_text_iff f.type_name (codes "ARRAY") in
          elim (Bool-cases (same_text f.type_name (codes "ARRAY"))) [
            | inl e ↦
                rw (check_array, r, e)
                  (
                    (λ q. (f, refl, kind.0 e, content.0 q)),
                    (λ (f', q, s, t).
                        let same : f ≡ f' = cc q in
                        let t' : ContentAgrees ops arr f.content = rw same t in content.1 t'),
                  )
            | inr e ↦
                rw (check_array, r, e)
                  (
                    (λ q. absurd (cc q)),
                    (λ (f', q, s, t).
                        let same : f ≡ f' = cc q in
                        let s' : f.type_name ≡ codes "ARRAY" = rw same s in
                        absurd (cc (kind.1 s', e))),
                  )
          ]
    ]
