-- ===== src/CrossCheck/Processes.antt =====
-- The processes of scripts/crosscheck-gguf-probe.mjs: findHostPython, ensureVenv and withHttpModel.
--
-- How a process ends is an argument. Attempt `n` of withHttpModel is the round of its loop.
pub mod Waiting
mod Tests
use dip_distributed_llm_runt.Prelude.{
  ℕ, zero, suc, ◌+◌, Bool, true, false, not, if◌then◌else◌, List, [], ◌∷◌, Option, none, some,
}
use dip_distributed_llm_runt.CrossCheck.Values.{Text}

-- `none` where the interpreter cannot be run; its output is trimmed.
unfoldable pub find_host_python : List (Option Text) → Option Text
find_host_python [] = none
find_host_python (none ∷ rs) = find_host_python rs
find_host_python (some [] ∷ rs) = find_host_python rs
find_host_python (some (c ∷ cs) ∷ rs) = some (c ∷ cs)

-- The flag `venvReady`, and what the disk has: the interpreter of the environment, and the packages.
pub record Venv : Type 0 where
  pub ready : Bool
  pub python : Bool
  pub packages : Bool

-- How the three processes of ensureVenv end.
pub record Attempt : Type 0 where
  pub hosts : List (Option Text)
  pub venv_made : Bool
  pub pip_installed : Bool

-- `false` where it throws.
unfoldable pub ensure_venv : Attempt → Venv → Bool × Venv
ensure_venv a v =
    if v.ready
    then (true, v)
    else if v.python
    then (true, record v { ready = true })
    else elim (find_host_python a.hosts) [
      | none ↦ (false, v)
      | some host ↦
          if not a.venv_made
          then (false, v)
          else if not a.pip_installed
          then (false, record v { python = true })
          else (true, record { ready = true; python = true; packages = true })
    ]

pub data Outcome (B : Type 0) : Type 0 where
  returned : B → Outcome B
  not_served : Outcome B

pub record Served (B : Type 0) : Type 0 where
  pub outcome : Outcome B
  pub calls : ℕ
  pub killed : Bool

abbrev pub max_attempts : ℕ
max_attempts = 40

-- `answers n`: the range request of attempt `n` is answered with 206 and its body arrives. `fn n` is what
-- `fn(url)` comes to then, `none` where it rejects; the `catch` of the round takes that too.
unfoldable pub wait_loop : {B : Type 0} → (ℕ → Bool) → (ℕ → Option B) → ℕ → ℕ → ℕ → Outcome B × ℕ
wait_loop answers fn zero n calls = (not_served, calls)
wait_loop answers fn (suc left) n calls =
    let waiting = wait_loop answers fn left (n + 1) calls in
    let again = wait_loop answers fn left (n + 1) (calls + 1) in
    if answers n then elim (fn n) [ none ↦ again | some b ↦ (returned b, calls + 1) ] else waiting

-- The body of the `try`: the server runs, and the loop waits for it.
unfoldable pub serve_model : {B : Type 0} → (ℕ → Bool) → (ℕ → Option B) → Served B
serve_model answers fn =
    let (outcome, calls) = wait_loop answers fn max_attempts 0 0 in
    record { outcome = outcome; calls = calls; killed = false }

-- The `finally` block.
unfoldable pub kill_server : {B : Type 0} → Served B → Served B
kill_server s = record s { killed = true }

unfoldable pub with_http_model : {B : Type 0} → (ℕ → Bool) → (ℕ → Option B) → Served B
with_http_model answers fn = kill_server (serve_model answers fn)
