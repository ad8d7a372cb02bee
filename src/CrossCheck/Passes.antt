-- ===== src/CrossCheck/Passes.antt =====
-- The exit code of scripts/crosscheck-gguf-probe.mjs.
use dip_distributed_llm_runt.Prelude.{
  zero, suc, ◌≡◌, ◌≢◌, ◌↔◌, refl, ap, Bool, true, false, ◌&&◌, List, [], ◌∷◌, Option, none, some,
  ◌==◌, length, arith, All, Option-cases, inl, inr,
}
use dip_distributed_llm_runt.CrossCheck.Values.{Doubles}
use dip_distributed_llm_runt.CrossCheck.{Problem, Probe, Dump, problems, compare}
use dip_distributed_llm_runt.CrossCheck.Verdict.{Agrees, compare-Agrees}
use dip_distributed_llm_runt.CrossCheck.Run.{
  Reading, missing, broken, both, code, check_models, check_http, main,
}

none_left : (ps : List Problem) → ((length ps == 0) ≡ true) ↔ (ps ≡ [])
none_left [] = ((λ e. refl), (λ e. refl))
none_left (p ∷ ps) = (
  (λ e. absurd (let q : (suc (length ps) == 0) ≡ true = e in ground (arith, q))),
  (λ e. absurd (cc e)),
)

compare_iff :
    {D : Type 0} (ops : Doubles D) (p : Probe D) (d : Dump D)
    → (compare ops p d ≡ true) ↔ Agrees ops p d
unfolding compare
compare_iff ops p d =
    let empty = none_left (problems ops p d) in
    let agrees = compare-Agrees ops p d in
    ((λ e. agrees.0 (empty.0 e)), (λ s. empty.1 (agrees.1 s)))

-- Both readers printed what they found, and they agree.
abbrev pub ReadingAgrees : {D : Type 0} → Doubles D → Reading D → Type 0
ReadingAgrees ops missing = ⊥
ReadingAgrees ops broken = ⊥
ReadingAgrees ops (both p d) = Agrees ops p d

abbrev pub HttpAgrees : {D : Type 0} → Doubles D → Option (Reading D) → Type 0
HttpAgrees ops none = Unit
HttpAgrees ops (some r) = ReadingAgrees ops r

check_models_iff :
    {D : Type 0} (ops : Doubles D) (rs : List (Reading D)) (ok : Bool)
    → (check_models ops rs ok ≡ some true) ↔ ((ok ≡ true) × All (ReadingAgrees ops) rs)
unfolding check_models
check_models_iff ops [] ok = ((λ e. (cc e, tt)), (λ h. ap some h.0))
check_models_iff ops (missing ∷ rs) ok =
    let rest = check_models_iff ops rs false in
    ((λ e. absurd (cc (rest.0 e).0)), (λ (h, (a, as_)). absurd a))
check_models_iff ops (broken ∷ rs) ok = ((λ e. absurd (cc e)), (λ (h, (a, as_)). absurd a))
check_models_iff ops (both p d ∷ rs) ok =
    let rest = check_models_iff ops rs (compare ops p d && ok) in
    let one = compare_iff ops p d in
    (
      (λ e.
          let (good, others) = rest.0 e in
          let passed : compare ops p d ≡ true = ground (arith, good) in
          let before : ok ≡ true = ground (arith, good) in (before, (one.0 passed, others))),
      (λ (h, (a, others)). let passed = one.1 a in rest.1 (ground (arith, passed, h), others)),
    )

check_http_iff :
    {D : Type 0} (ops : Doubles D) (http : Option (Reading D)) (ok : Bool)
    → (check_http ops http ok ≡ some true) ↔ ((ok ≡ true) × HttpAgrees ops http)
unfolding check_http
check_http_iff ops none ok = ((λ e. (cc e, tt)), (λ h. ap some h.0))
check_http_iff ops (some missing) ok = ((λ e. absurd (cc e)), (λ h. absurd h.1))
check_http_iff ops (some broken) ok = ((λ e. absurd (cc e)), (λ h. absurd h.1))
check_http_iff ops (some (both p d)) ok =
    let one = compare_iff ops p d in
    (
      (λ e.
          let good : (compare ops p d && ok) ≡ true = cc e in
          let passed : compare ops p d ≡ true = ground (arith, good) in
          let before : ok ≡ true = ground (arith, good) in (before, one.0 passed)),
      (λ (h, a). let passed = one.1 a in ground (arith, passed, h)),
    )

two_not_zero : code 2 ≢ code 0
two_not_zero e = let two : suc (suc zero) ≡ zero = cc e in omega (arith, two)

one_not_zero : code 1 ≢ code 0
one_not_zero e = let one : suc zero ≡ zero = cc e in omega (arith, one)

-- The cross-check exits with code 0 exactly where gguf-py is there, a model is named, and for every model,
-- and for the one served over HTTP if there is one, both readers printed what they found and agree: the
-- architecture and the tokenizer's `pre` are the same without a conversion, both or neither have a chat
-- template, and the tensors have the same names, types and dimensions. Every field of one value but the
-- template prints as gguf-py's where one of the two is a boolean or gguf-py's is a text, and else both count
-- as numbers that are finite and the same or near; every array has the length of gguf-py's, and each sampled
-- item prints as the element at its place where one of them is a text, and else both are near as numbers. So
-- where booleans of an array are sampled the exit code is not 0, even if they are equal.
pub main_passes_iff :
    {D : Type 0} (ops : Doubles D) (has_gguf_py : Bool) (rs : List (Reading D))
    (http : Option (Reading D))
    → (main ops has_gguf_py rs http ≡ code 0)
      ↔ ((has_gguf_py ≡ true) × (rs ≢ []) × All (ReadingAgrees ops) rs × HttpAgrees ops http)
unfolding main
main_passes_iff ops has_gguf_py [] http =
    ((λ e. absurd (two_not_zero e)), (λ (a, b, c, d). absurd (b refl)))
main_passes_iff ops false (r ∷ rs) http =
    ((λ e. absurd (two_not_zero e)), (λ (a, b, c, d). absurd (cc a)))
main_passes_iff ops true (r ∷ rs) http =
    let models = check_models_iff ops (r ∷ rs) true in
    elim (Option-cases (check_models ops (r ∷ rs) true)) [
      | inl e ↦
          rw (main, e) ((λ q. absurd (cc q)), (λ (a, b, c, d). absurd (cc (models.1 (refl, c), e))))
      | inr (ok, e) ↦
          let served = check_http_iff ops http ok in
          elim (Option-cases (check_http ops http ok)) [
            | inl f ↦
                rw (main, e, f)
                  (
                    (λ q. absurd (cc q)),
                    (λ (a, b, c, d).
                        let good : ok ≡ true = cc (models.1 (refl, c), e) in
                        absurd (cc (served.1 (good, d), f))),
                  )
            | inr (true, f) ↦
                let (good, h) = served.0 f in
                let all : check_models ops (r ∷ rs) true ≡ some true = cc (e, good) in
                rw (main, e, f) ((λ q. (refl, (λ n. cc n), (models.0 all).1, h)), (λ s. refl))
            | inr (false, f) ↦
                rw (main, e, f)
                  (
                    (λ q. absurd (one_not_zero q)),
                    (λ (a, b, c, d).
                        let good : ok ≡ true = cc (models.1 (refl, c), e) in
                        absurd (cc (served.1 (good, d), f))),
                  )
          ]
    ]
