-- ===== src/CrossCheck/Verdict.antt =====
-- When scripts/crosscheck-gguf-probe.mjs passes.
use dip_distributed_llm_runt.Prelude.{
  ◌≡◌, ◌↔◌, inl, inr, refl, Bool, true, false, List, [], ◌∷◌, ◌++◌, Option, none, some, ◌==◌,
  length, arith, All, Option-cases,
}
use dip_distributed_llm_runt.Prelude.Dict
use dip_distributed_llm_runt.Prelude.Dict.{Dict}
use dip_distributed_llm_runt.CrossCheck.Values.{Text, Text-discrete, Doubles}
use dip_distributed_llm_runt.CrossCheck.{
  ProbeTensor, Probe, DumpTensor, Dump, Problem, note_unless, each, value_of, or_null, is_some,
  architecture_key, pre_key, template_key, same_bool, identity, add_tensors, check_tensor,
  check_extra, tensor_problems, check_hparam, check_array, problems,
}
use dip_distributed_llm_runt.CrossCheck.Strict.{StrictlySame, strict_equal_iff}
use dip_distributed_llm_runt.CrossCheck.Agreement.{
  note_unless_iff, both_nil_iff, each_iff, TensorAgrees, check_tensor-TensorAgrees,
}
use dip_distributed_llm_runt.CrossCheck.Fields.{
  HparamAgrees, check_hparam-HparamAgrees, ArrayAgrees, check_array-ArrayAgrees, item_then,
}

abbrev pub IsListed : {D : Type 0} → Dict Text (DumpTensor D) → Text × ProbeTensor → Type 0
IsListed {D} tensors (name, t) = (d : DumpTensor D) × (Dict.get Text-discrete name tensors ≡ some d)

check_extra-IsListed :
    {D : Type 0} (tensors : Dict Text (DumpTensor D)) (t : Text × ProbeTensor)
    → (check_extra tensors t ≡ []) ↔ IsListed tensors t
unfolding check_extra
check_extra-IsListed tensors (name, t) = elim (Option-cases (Dict.get Text-discrete name tensors)) [
  | inl e ↦
      rw (check_extra, e)
        (
          (λ q. absurd (cc ((note_unless_iff false (Problem.tensor_extra name)).0 q))),
          (λ (d, q). absurd (cc q)),
        )
  | inr (d, e) ↦
      rw (check_extra, e)
        ((λ q. (d, refl)), (λ h. (note_unless_iff true (Problem.tensor_extra name)).1 refl))
]

-- The probe printed its tensors, each tensor of gguf-py is among them as it is there, and no other is.
abbrev pub TensorsAgree :
    {D : Type 0} → Doubles D → Option (List ProbeTensor) → Dict Text (DumpTensor D) → Type 0
TensorsAgree ops none tensors = ⊥
TensorsAgree ops (some ts) tensors =
    All (TensorAgrees ops (add_tensors ts [])) tensors × All (IsListed tensors) (add_tensors ts [])

abbrev listed_problems :
    {D : Type 0} → Doubles D → Option (List ProbeTensor) → Dict Text (DumpTensor D) → List Problem
listed_problems ops listed tensors = elim listed [
  | none ↦ Problem.no_tensor_list ∷ []
  | some ts ↦
      each (check_tensor ops (add_tensors ts [])) tensors
      ++ each (check_extra tensors) (add_tensors ts [])
]

listed_problems-TensorsAgree :
    {D : Type 0} (ops : Doubles D) (listed : Option (List ProbeTensor))
    (tensors : Dict Text (DumpTensor D))
    → (listed_problems ops listed tensors ≡ []) ↔ TensorsAgree ops listed tensors
listed_problems-TensorsAgree ops none tensors = ((λ q. absurd (cc q)), (λ h. absurd h))
listed_problems-TensorsAgree ops (some ts) tensors =
    let by_name = add_tensors ts [] in
    both_nil_iff (each (check_tensor ops by_name) tensors) (each (check_extra tensors) by_name)
      (All (TensorAgrees ops by_name) tensors) (All (IsListed tensors) by_name)
      (each_iff (check_tensor ops by_name) (TensorAgrees ops by_name) tensors
        (check_tensor-TensorAgrees ops by_name))
      (each_iff (check_extra tensors) (IsListed tensors) by_name (check_extra-IsListed tensors))

-- The probe and gguf-py agree: in identity, tensors, fields of one value and arrays.
pub record Agrees {D : Type 0} (ops : Doubles D) (probe : Probe D) (dump : Dump D) : Type 0 where
  pub architecture :
      StrictlySame ops probe.architecture
        (value_of (Dict.get Text-discrete architecture_key dump.metadata))
  pub pre :
      StrictlySame ops
        (or_null probe.tokenizer_pre)
        (or_null (value_of (Dict.get Text-discrete pre_key dump.metadata)))
  pub template :
      probe.has_chat_template ≡ is_some (Dict.get Text-discrete template_key dump.metadata)
  pub count : probe.tensor_count ≡ length dump.tensors
  pub tensors : TensorsAgree ops probe.tensors dump.tensors
  pub hparams : All (HparamAgrees ops dump.metadata) probe.hparams
  pub arrays : All (ArrayAgrees ops dump.metadata) probe.array_fields

same_bool_iff : (a b : Bool) → (same_bool a b ≡ true) ↔ (a ≡ b)
same_bool_iff a b = ground arith

module _ {D : Type 0} (ops : Doubles D) (probe : Probe D) (dump : Dump D) where
  same_count :
      ((probe.tensor_count == length dump.tensors) ≡ true)
      ↔ (probe.tensor_count ≡ length dump.tensors)
  same_count = ((λ e. ground (arith, e)), (λ e. ground (arith, e)))

  -- There is no problem with the template where both have one or neither has.
  template_nil :
      (note_unless
          (same_bool probe.has_chat_template
            (is_some (Dict.get Text-discrete template_key dump.metadata)))
          Problem.template_differs
        ≡ [])
      ↔ (probe.has_chat_template ≡ is_some (Dict.get Text-discrete template_key dump.metadata))
  template_nil =
      let there = is_some (Dict.get Text-discrete template_key dump.metadata) in
      let same = same_bool_iff probe.has_chat_template there in
      let note =
        note_unless_iff (same_bool probe.has_chat_template there) Problem.template_differs in
      ((λ e. same.0 (note.0 e)), (λ e. note.1 (same.1 e)))

  fields_nil :
      (each (check_hparam ops dump.metadata) probe.hparams
          ++ each (check_array ops dump.metadata) probe.array_fields
        ≡ [])
      ↔ (All (HparamAgrees ops dump.metadata) probe.hparams
          × All (ArrayAgrees ops dump.metadata) probe.array_fields)
  fields_nil =
      let metadata = dump.metadata in
      both_nil_iff (each (check_hparam ops metadata) probe.hparams)
        (each (check_array ops metadata) probe.array_fields)
        (All (HparamAgrees ops metadata) probe.hparams)
        (All (ArrayAgrees ops metadata) probe.array_fields)
        (each_iff (check_hparam ops metadata) (HparamAgrees ops metadata) probe.hparams
          (check_hparam-HparamAgrees ops metadata))
        (each_iff (check_array ops metadata) (ArrayAgrees ops metadata) probe.array_fields
          (check_array-ArrayAgrees ops metadata))

  pub compare-Agrees : (problems ops probe dump ≡ []) ↔ Agrees ops probe dump
  unfolding problems identity tensor_problems
  compare-Agrees =
      let tensors =
        item_then (probe.tensor_count == length dump.tensors) Problem.count_differs
          (listed_problems ops probe.tensors dump.tensors)
          (probe.tensor_count ≡ length dump.tensors) (TensorsAgree ops probe.tensors dump.tensors)
          same_count (listed_problems-TensorsAgree ops probe.tensors dump.tensors) in
      let ident =
        item_then _ Problem.architecture_differs _ _ _ (strict_equal_iff ops _ _)
          (item_then _ Problem.pre_differs _ _ _ (strict_equal_iff ops _ _) template_nil) in
      let all = both_nil_iff _ _ _ _ ident (both_nil_iff _ _ _ _ tensors fields_nil) in
      (
        (λ q.
            let (ident_holds, rest) = all.0 q in
            let (arch, of_text) = ident_holds in
            let (listed, fields) = rest in
            record {
              architecture = arch;
              pre = of_text.0;
              template = of_text.1;
              count = listed.0;
              tensors = listed.1;
              hparams = fields.0;
              arrays = fields.1;
            }),
        (λ s.
            all.1 (
              (s.architecture, (s.pre, s.template)),
              ((s.count, s.tensors), (s.hparams, s.arrays)),
            )),
      )
