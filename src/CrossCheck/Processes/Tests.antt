-- ===== src/CrossCheck/Processes/Tests.antt =====
-- Runs of the processes of scripts/crosscheck-gguf-probe.mjs.
use dip_distributed_llm_runt.Prelude.{ℕ, ◌≡◌, refl, Bool, true, false, [], ◌∷◌, Option, none, some}
use dip_distributed_llm_runt.Prelude.Text.{codes}
use dip_distributed_llm_runt.CrossCheck.Processes.{
  Venv, Attempt, find_host_python, ensure_venv, not_served, with_http_model,
}
use dip_distributed_llm_runt.CrossCheck.Processes.Waiting.{with_http_model_masks}

-- The server is up, and the probe fails on the model.
abbrev always_up : ℕ → Bool
always_up n = true

abbrev always_fails : ℕ → Option ℕ
always_fails n = none

with_http_model_masks_example :
    with_http_model always_up always_fails
    ≡ record { outcome = not_served; calls = 40; killed = true }
with_http_model_masks_example =
    with_http_model_masks always_up always_fails (λ m lt. refl) (λ m lt. refl)

abbrev offline : Attempt
offline = record {
  hosts = none ∷ some (codes "python3") ∷ [];
  venv_made = true;
  pip_installed = false;
}

abbrev nothing_there : Venv
nothing_there = record { ready = false; python = false; packages = false }

-- After an installation that failed, the environment without packages passes for a ready one.
half_made :
    ensure_venv offline (ensure_venv offline nothing_there).1
    ≡ (true, record { ready = true; python = true; packages = false })
unfolding ensure_venv find_host_python
half_made = refl
