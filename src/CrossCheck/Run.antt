-- ===== src/CrossCheck/Run.antt =====
-- main of scripts/crosscheck-gguf-probe.mjs: its arguments, the models one after another, the exit code.
--
-- The probe and gguf-py run as processes: what the two print for a file is a `Reading`.
use dip_distributed_llm_runt.Prelude.{
  ℕ, ◌+◌, Bool, true, false, not, ◌&&◌, ◌||◌, if◌then◌else◌, List, [], ◌∷◌, Option, none, some,
  ◌==◌,
}
use dip_distributed_llm_runt.Prelude.Text.{codes}
use dip_distributed_llm_runt.CrossCheck.Values.{Text, Doubles, same_text}
use dip_distributed_llm_runt.CrossCheck.{Probe, Dump, compare}

-- A path that is not there, a process that fails, or what the two readers print.
pub data Reading (D : Type 0) : Type 0 where
  missing : Reading D
  broken : Reading D
  both : Probe D → Dump D → Reading D

-- `rejected` is a promise of main that rejects.
pub data Exit : Type 0 where
  code : ℕ → Exit
  rejected : Exit

-- The loop over the models: `allOk`, or `none` where a process fails.
unfoldable pub check_models : {D : Type 0} → Doubles D → List (Reading D) → Bool → Option Bool
check_models ops [] all_ok = some all_ok
check_models ops (missing ∷ rs) all_ok = check_models ops rs false
check_models ops (broken ∷ rs) all_ok = none
check_models ops (both probe dump ∷ rs) all_ok =
    check_models ops rs (compare ops probe dump && all_ok)

-- The model served over HTTP: here a path that is not there makes gguf-py fail.
unfoldable pub check_http : {D : Type 0} → Doubles D → Option (Reading D) → Bool → Option Bool
check_http ops none all_ok = some all_ok
check_http ops (some missing) all_ok = none
check_http ops (some broken) all_ok = none
check_http ops (some (both probe dump)) all_ok = some (compare ops probe dump && all_ok)

unfoldable pub main : {D : Type 0} → Doubles D → Bool → List (Reading D) → Option (Reading D) → Exit
main ops has_gguf_py [] http = code 2
main ops has_gguf_py (r ∷ rs) http =
    if not has_gguf_py then code 2 else elim (check_models ops (r ∷ rs) true) [
      | none ↦ rejected
      | some all_ok ↦ elim (check_http ops http all_ok) [
        | none ↦ rejected
        | some passed ↦ if passed then code 0 else code 1
      ]
    ]

-- `args.indexOf(text)`, from index `i` on.
unfoldable pub index_of : Text → ℕ → List Text → Option ℕ
index_of t i [] = none
index_of t i (a ∷ as_) = if same_text a t then some i else index_of t (i + 1) as_

unfoldable pub starts_with : Text → Text → Bool
starts_with [] t = true
starts_with (c ∷ cs) [] = false
starts_with (c ∷ cs) (d ∷ ds) = (c == d) && starts_with cs ds

-- `at >= 0 && i === at + 1`
abbrev pub follows : Option ℕ → ℕ → Bool
follows none i = false
follows (some at) i = i == at + 1

-- `args.filter`, from index `i` on.
unfoldable pub keep_models : Option ℕ → Option ℕ → ℕ → List Text → List Text
keep_models port http i [] = []
keep_models port http i (a ∷ as_) =
    let rest = keep_models port http (i + 1) as_ in
    if starts_with (codes "--") a || follows port i || follows http i then rest else a ∷ rest

unfoldable pub models_of : List Text → List Text
models_of args =
    keep_models (index_of (codes "--port") 0 args) (index_of (codes "--http") 0 args) 0 args
