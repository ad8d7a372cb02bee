-- ===== src/Runtime/Requester/Steps.antt =====
-- runtime/llmlet-runtime.js, startRequester: the operations as steps in any order, and the invariant
-- that ties the generation, the waiting callback and the promises together.
use dip_distributed_llm_runt.Prelude.{
  ℕ, ◌≤◌, ◌<◌, ◌≡◌, ◌≢◌, Bool, true, List, [], ◌∷◌, Option, none, some, String,
}
use dip_distributed_llm_runt.Runtime.Deferred.{Deferred, pending}
use dip_distributed_llm_runt.Runtime.Requester.{
  Requester, Output, prompted, errored, flushed, force_exited, peers_closed, waiting, start,
  pending_prompt, on_exit, on_abort, startup_failed, cache_opened, model_prepared, instantiated,
  generate, generate_ready, cancel, stop, stop_by_force, stop_end,
}

-- What can happen to a requester. A `generate` call resumes with a prompt that it accepted, in
-- whatever state it was called.
pub data Step : Requester → Requester → Type 0 where
  opens_cache : (s : Requester) → Step s (cache_opened s)
  prepares : (s : Requester) → Step s (model_prepared s)
  instantiates : (s : Requester) → Step s (instantiated s)
  startup_fails : (error : String) (s : Requester) → Step s (startup_failed error s)
  prompts : (cb : ℕ) (s : Requester) → Step s (pending_prompt cb s)
  exits : (code : ℕ) (s : Requester) → Step s (on_exit code s)
  aborts : (reason : String) (s : Requester) → Step s (on_abort reason s)
  resumes :
      (encoded : List ℕ) (called s : Requester)
      → generate encoded called ≡ waiting encoded
      → Step s (generate_ready encoded s).1
  cancels : (s : Requester) → Step s (cancel s)
  stops : (s : Requester) → Step s (stop s)
  forces : (s : Requester) → Step s (stop_by_force s)
  stop_ends : (clean : Bool) (s : Requester) → Step s (stop_end clean s)

pub data Reach (context_size : ℕ) : Requester → Type 0 where
  here : Reach context_size (start context_size)
  next : {s t : Requester} → Reach context_size s → Step s t → Reach context_size t

-- An empty prompt, which ends the session, is in the log only of a requester that was told to stop.
abbrev pub EndsOnStop : Bool → List Output → Type 0
EndsOnStop stopping [] = Unit {0}
EndsOnStop stopping (prompted cb text ∷ log) =
    (text ≡ [] → stopping ≡ true) × EndsOnStop stopping log
EndsOnStop stopping (errored e ∷ log) = EndsOnStop stopping log
EndsOnStop stopping (flushed ∷ log) = EndsOnStop stopping log
EndsOnStop stopping (force_exited ∷ log) = EndsOnStop stopping log
EndsOnStop stopping (peers_closed ∷ log) = EndsOnStop stopping log

-- The fields that the invariant speaks of.
pub record Core : Type 0 where
  pub generations : ℕ → Deferred
  pub next_generation : ℕ
  pub active : Option ℕ
  pub prompt_waiter : Option ℕ
  pub stop_requested : Bool
  pub log : List Output

abbrev pub core : Requester → Core
core s = record {
  generations = s.generations;
  next_generation = s.next_generation;
  active = s.active;
  prompt_waiter = s.prompt_waiter;
  stop_requested = s.stop_requested;
  log = s.log;
}

pub record IsOrderly (s : Core) : Type 0 where
  -- The module waits for a prompt only while no generation runs.
  pub exclusive : (cb : ℕ) → s.prompt_waiter ≡ some cb → s.active ≡ none
  -- The running generation has not settled, and every earlier one has.
  pub running : (g : ℕ) → s.active ≡ some g → (s.generations g ≡ pending) × (g < s.next_generation)
  pub settled : (g : ℕ) → g < s.next_generation → s.active ≢ some g → s.generations g ≢ pending
  pub fresh : (g : ℕ) → s.next_generation ≤ g → s.generations g ≡ pending
  pub ends : EndsOnStop s.stop_requested s.log
