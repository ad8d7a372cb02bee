-- ===== src/CrossCheck/Agreement.antt =====
-- What it means that the probe and gguf-py agree on a file, and `compare` of scripts/crosscheck-gguf-probe.mjs.
use dip_distributed_llm_runt.Prelude.{
  ◌≡◌, ◌↔◌, inl, inr, refl, Bool, true, false, List, [], ◌∷◌, ◌++◌, some, All, Bool-cases,
  Option-cases,
}
use dip_distributed_llm_runt.Prelude.Dict
use dip_distributed_llm_runt.Prelude.Dict.{Dict}
use dip_distributed_llm_runt.CrossCheck.Values.{Text, Text-discrete, Doubles, same_text, decided}
use dip_distributed_llm_runt.CrossCheck.{
  ProbeTensor, DumpTensor, Problem, note_unless, each, same_dims, check_tensor,
}

pub note_unless_iff : (ok : Bool) (p : Problem) → (note_unless ok p ≡ []) ↔ (ok ≡ true)
unfolding note_unless
note_unless_iff true p = (λ e. refl, λ e. refl)
note_unless_iff false p = (λ e. absurd (cc e), λ e. absurd (cc e))

pub append_nil_iff : (xs ys : List Problem) → (xs ++ ys ≡ []) ↔ ((xs ≡ []) × (ys ≡ []))
append_nil_iff [] ys = (λ e. (refl, e), λ h. h.1)
append_nil_iff (x ∷ xs) ys = (λ e. absurd (cc e), λ h. absurd (cc h.0))

-- Two lists of problems, one after the other, are empty where both properties hold.
pub both_nil_iff :
    (xs ys : List Problem) (P Q : Type 0)
    → (xs ≡ []) ↔ P
    → (ys ≡ []) ↔ Q
    → (xs ++ ys ≡ []) ↔ (P × Q)
both_nil_iff xs ys P Q p q =
    let both = append_nil_iff xs ys in
    ((λ e. (p.0 (both.0 e).0, q.0 (both.0 e).1)), (λ (a, b). both.1 (p.1 a, q.1 b)))

pub each_iff :
    {A : Type 0} (f : A → List Problem) (P : A → Type 0) (xs : List A)
    → ((x : A) → (f x ≡ []) ↔ P x)
    → (each f xs ≡ []) ↔ All P xs
unfolding each
each_iff f P [] h = (λ e. tt, λ e. refl)
each_iff f P (x ∷ xs) h = both_nil_iff (f x) (each f xs) (P x) (All P xs) (h x) (each_iff f P xs h)

decided_iff : {A : Type 0} (q : Dec A) → (decided q ≡ true) ↔ A
decided_iff (yes p) = (λ e. p, λ e. refl)
decided_iff (no n) = (λ e. absurd (cc e), λ a. absurd (n a))

pub same_text_iff : (a b : Text) → (same_text a b ≡ true) ↔ (a ≡ b)
same_text_iff a b = decided_iff (Text-discrete a b)

-- Dimensions agree where they are as many and each is the same number.
abbrev pub SameDims : {D : Type 0} → Doubles D → List Text → List D → Type 0
SameDims ops [] [] = Unit
SameDims ops [] (n ∷ ns) = ⊥
SameDims ops (d ∷ ds) [] = ⊥
SameDims ops (d ∷ ds) (n ∷ ns) = (ops.same (ops.number d) n ≡ true) × SameDims ops ds ns

same_dims-SameDims :
    {D : Type 0} (ops : Doubles D) (ds : List Text) (ns : List D)
    → (same_dims ops ds ns ≡ true) ↔ SameDims ops ds ns
unfolding same_dims
same_dims-SameDims ops [] [] = (λ e. tt, λ e. refl)
same_dims-SameDims ops [] (n ∷ ns) = (λ e. absurd (cc e), λ e. absurd e)
same_dims-SameDims ops (d ∷ ds) [] = (λ e. absurd (cc e), λ e. absurd e)
same_dims-SameDims ops (d ∷ ds) (n ∷ ns) =
    let rest = same_dims-SameDims ops ds ns in
    elim (Bool-cases (ops.same (ops.number d) n)) [
      | inl e ↦ rw e ((λ q. (refl, rest.0 q)), (λ h. rest.1 h.1))
      | inr e ↦ rw e ((λ q. absurd (cc q)), (λ h. absurd (cc h.0)))
    ]

-- The probe has a tensor of this name, with the type and the dimensions of gguf-py.
abbrev pub TensorAgrees :
    {D : Type 0} → Doubles D → Dict Text ProbeTensor → Text × DumpTensor D → Type 0
TensorAgrees ops by_name (name, d) =
    (p : ProbeTensor) × (Dict.get Text-discrete name by_name ≡ some p)
    × (p.type_name ≡ d.type_name)
    × SameDims ops p.dims d.shape

pub check_tensor-TensorAgrees :
    {D : Type 0} (ops : Doubles D) (by_name : Dict Text ProbeTensor) (t : Text × DumpTensor D)
    → (check_tensor ops by_name t ≡ []) ↔ TensorAgrees ops by_name t
unfolding check_tensor
check_tensor-TensorAgrees ops by_name (name, d) =
    elim (Option-cases (Dict.get Text-discrete name by_name)) [
      | inl e ↦ rw (check_tensor, e) ((λ q. absurd (cc q)), (λ (p, q, r, s). absurd (cc q)))
      | inr (p, e) ↦
          let types = note_unless (same_text p.type_name d.type_name) (Problem.tensor_type name) in
          let both =
            append_nil_iff types
              (note_unless (same_dims ops p.dims d.shape) (Problem.tensor_shape name)) in
          let type =
            note_unless_iff (same_text p.type_name d.type_name) (Problem.tensor_type name) in
          let shape = note_unless_iff (same_dims ops p.dims d.shape) (Problem.tensor_shape name) in
          let text = same_text_iff p.type_name d.type_name in
          let dims = same_dims-SameDims ops p.dims d.shape in
          rw (check_tensor, e)
            (
              (λ q. (p, refl, text.0 (type.0 (both.0 q).0), dims.0 (shape.0 (both.0 q).1))),
              (λ (p', q, r, s).
                  let same : p ≡ p' = cc q in
                  let r' : p.type_name ≡ d.type_name = rw same r in
                  let s' : SameDims ops p.dims d.shape = rw same s in
                  both.1 (type.1 (text.1 r'), shape.1 (dims.1 s'))),
            )
    ]
