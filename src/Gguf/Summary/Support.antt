-- ===== src/Gguf/Summary/Support.antt =====
-- Which files the WebGPU backend can run, by summarise of scripts/probe-gguf-header.mjs.
use dip_distributed_llm_runt.Prelude.{
  ◌≡◌, ◌↔◌, refl, true, not, if◌then◌else◌, List, [], ◌∷◌, ◌++◌, arith, All, Bool-cases, inl, inr,
}
use dip_distributed_llm_runt.Gguf.Header.{Tensor}
use dip_distributed_llm_runt.Gguf.Summary.{
  Text, has, type_name, is_expert, select, add_types, unsupported, summarise,
  webgpu_mul_mat_id_types, webgpu_mul_mat_types, same_text,
}

-- Every member of a list of names is known.
abbrev pub IsKnown : List Text → List Text → Type 0
IsKnown known = All λ t. has t known ≡ true

unsupported_iff : (known ts : List Text) → (unsupported known ts ≡ []) ↔ IsKnown known ts
unfolding unsupported
unsupported_iff known [] = ((λ e. tt), (λ e. refl))
unsupported_iff known (t ∷ ts) =
    let rest = unsupported_iff known ts in
    elim (Bool-cases (has t known)) [
      | inl e ↦ rw e ((λ q. (refl, rest.0 q)), (λ h. rest.1 h.1))
      | inr e ↦ rw e ((λ q. absurd (cc q)), (λ h. absurd (cc h.0)))
    ]

same_text_sound : (a b : Text) → same_text a b ≡ true → a ≡ b
unfolding same_text
same_text_sound [] [] e = refl
same_text_sound [] (b ∷ bs) e = absurd (cc e)
same_text_sound (a ∷ as_) [] e = absurd (cc e)
same_text_sound (a ∷ as_) (b ∷ bs) e =
    let head : a ≡ b = ground (arith, e) in
    let tail : same_text as_ bs ≡ true = ground (arith, e) in cc (head, same_text_sound as_ bs tail)

IsKnown-has :
    (known set : List Text) (t : Text) → has t set ≡ true → IsKnown known set → has t known ≡ true
unfolding has
IsKnown-has known [] t e h = absurd (cc e)
IsKnown-has known (u ∷ us) t e (k, ks) = elim (Bool-cases (same_text u t)) [
  | inl f ↦ let same = same_text_sound u t f in rw same at k
  | inr f ↦ IsKnown-has known us t (rw f at e) ks
]

IsKnown-append :
    (known set : List Text) (t : Text)
    → IsKnown known (set ++ (t ∷ [])) ↔ (IsKnown known set × (has t known ≡ true))
IsKnown-append known [] t = ((λ h. (tt, h.0)), (λ h. (h.1, tt)))
IsKnown-append known (u ∷ us) t =
    let rest = IsKnown-append known us t in
    (
      (λ h. let (ks, k) = rest.0 h.1 in ((h.0, ks), k)),
      (λ ((u_known, ks), k). (u_known, rest.1 (ks, k))),
    )

abbrev AreKnown : List Text → List Tensor → Type 0
AreKnown known = All λ t. has (type_name t.type) known ≡ true

add_types-IsKnown :
    (known : List Text) (ts : List Tensor) (set : List Text)
    → IsKnown known (add_types ts set) ↔ (IsKnown known set × AreKnown known ts)
unfolding add_types
add_types-IsKnown known [] set = ((λ h. (h, tt)), (λ h. h.0))
add_types-IsKnown known (t ∷ ts) set = elim (Bool-cases (has (type_name t.type) set)) [
  | inl e ↦
      let rest = add_types-IsKnown known ts set in
      rw e (
        (λ h.
            let (s, others) = rest.0 h in
            (s, (IsKnown-has known set (type_name t.type) e s, others))),
        (λ (s, (one, others)). rest.1 (s, others)),
      )
  | inr e ↦
      let rest = add_types-IsKnown known ts (set ++ (type_name t.type ∷ [])) in
      let last = IsKnown-append known set (type_name t.type) in
      rw e (
        (λ h. let (s, others) = rest.0 h in let (s', one) = last.0 s in (s', (one, others))),
        (λ (s, (one, others)). rest.1 (last.1 (s, one), others)),
      )
]

-- An expert tensor has a type of MUL_MAT_ID, any other a type of MUL_MAT.
abbrev pub IsSupported : Tensor → Type 0
IsSupported t =
    has (type_name t.type)
      (if is_expert t.name then webgpu_mul_mat_id_types else webgpu_mul_mat_types)
    ≡ true

parts :
    (ts : List Tensor)
    → (AreKnown webgpu_mul_mat_id_types (select (λ t. is_expert t.name) ts)
        × AreKnown webgpu_mul_mat_types (select (λ t. not (is_expert t.name)) ts))
      ↔ All IsSupported ts
unfolding select
parts [] = ((λ h. tt), (λ h. (tt, tt)))
parts (t ∷ ts) =
    let rest = parts ts in
    elim (Bool-cases (is_expert t.name)) [
      | inl e ↦ rw e (
        (λ ((k, ks), os). (k, rest.0 (ks, os))),
        (λ (k, h). let (ks, os) = rest.1 h in ((k, ks), os)),
      )
      | inr e ↦ rw e (
        (λ (ks, (o, os)). (o, rest.0 (ks, os))),
        (λ (o, h). let (ks, os) = rest.1 h in (ks, (o, os))),
      )
    ]

-- The probe names no unsupported type, neither for MUL_MAT_ID nor for MUL_MAT, exactly where every expert
-- tensor has a type that MUL_MAT_ID takes and every other tensor one that MUL_MAT takes.
pub supported_iff :
    (ts : List Tensor)
    → (((summarise ts).unsupported_for_mul_mat_id ≡ [])
        × ((summarise ts).unsupported_for_mul_mat ≡ []))
      ↔ All IsSupported ts
unfolding summarise
supported_iff ts =
    let experts = select (λ t. is_expert t.name) ts in
    let plain = select (λ t. not (is_expert t.name)) ts in
    let of_id = unsupported_iff webgpu_mul_mat_id_types (add_types experts []) in
    let of_mat = unsupported_iff webgpu_mul_mat_types (add_types plain []) in
    let id_set = add_types-IsKnown webgpu_mul_mat_id_types experts [] in
    let mat_set = add_types-IsKnown webgpu_mul_mat_types plain [] in
    let both = parts ts in
    (
      (λ (a, b). both.0 ((id_set.0 (of_id.0 a)).1, (mat_set.0 (of_mat.0 b)).1)),
      (λ h. let (a, b) = both.1 h in (of_id.1 (id_set.1 (tt, a)), of_mat.1 (mat_set.1 (tt, b)))),
    )
