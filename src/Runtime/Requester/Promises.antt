-- ===== src/Runtime/Requester/Promises.antt =====
-- runtime/llmlet-runtime.js, startRequester: when the promises of `generate`, `ready` and `exited`
-- settle, and how.
use dip_distributed_llm_runt.Prelude.{
  ℕ, ◌+◌, ◌≤◌, ◌<◌, ◌≡◌, ◌≢◌, ◌↔◌, refl, Bool, true, false, List, [], ◌∷◌, Option, none, some,
  String, arith, length,
}
use dip_distributed_llm_runt.Runtime.Deferred.{
  Failure, pending, resolved, rejected, settle_resolve, settle_reject, Cache, close_cache,
}
use dip_distributed_llm_runt.Runtime.Requester.{
  Requester, prompted, errored, flushed, waiting, running, abort_generation, fail, deliver_prompt,
  finish_generation, pending_prompt, on_exit, on_abort, startup_failed, cache_opened,
  model_prepared, instantiated, generate, generate_ready, cancel, stop, stop_by_force, stop_end,
  stop_rest, wait_or_timeout, Output,
}
use dip_distributed_llm_runt.Runtime.Requester.Steps.{
  Step, opens_cache, prepares, instantiates, startup_fails, prompts, exits, aborts, resumes,
  cancels, stops, forces, stop_ends, core, IsOrderly,
}
use dip_distributed_llm_runt.Runtime.Requester.Orderly.{stop_end-IsOrderly}

stop_end-active : (clean : Bool) (s : Requester) → (stop_end clean s).active ≡ none
unfolding stop_end abort_generation
stop_end-active clean s = ground arith

stop_end-ready : (clean : Bool) (s : Requester) → (stop_end clean s).ready ≢ pending
unfolding stop_end abort_generation settle_reject
stop_end-ready clean s = ground arith

-- Once stop() has been called, no step resolves a generation: a truncated answer is never reported as
-- a finished one.
pub Step-unresolved :
    {s t : Requester} (g : ℕ)
    → Step s t
    → s.stop_requested ≡ true
    → s.generations g ≡ pending
    → t.generations g ≢ resolved
unfolding cache_opened model_prepared instantiated startup_failed on_abort fail abort_generation
    pending_prompt finish_generation on_exit generate_ready deliver_prompt cancel stop stop_by_force
    stop_end settle_reject settle_resolve
Step-unresolved g (opens_cache s) h p = ground arith
Step-unresolved g (prepares s) h p = ground arith
Step-unresolved g (instantiates s) h p = ground arith
Step-unresolved g (startup_fails error s) h p = ground arith
Step-unresolved g (prompts cb s) h p = ground arith
Step-unresolved g (exits code s) h p = ground arith
Step-unresolved g (aborts reason s) h p = ground arith
Step-unresolved g (resumes encoded called s w) h p = ground arith
Step-unresolved g (cancels s) h p = ground arith
Step-unresolved g (stops s) h p = ground arith
Step-unresolved g (forces s) h p = ground arith
Step-unresolved g (stop_ends clean s) h p = ground arith

-- When stop() returns from an orderly state, whatever it waited for, `ready` has settled and so has every
-- generation that was ever started.
pub stop_end_settles :
    (clean : Bool) (s : Requester) (g : ℕ)
    → IsOrderly (core s)
    → g < (stop_end clean s).next_generation
    → ((stop_end clean s).ready ≢ pending)
      × ((stop_end clean s).active ≡ none)
      × ((stop_end clean s).generations g ≢ pending)
stop_end_settles clean s g v h =
    let a = stop_end-active clean s in
    (stop_end-ready clean s, a, (stop_end-IsOrderly clean s v).settled g h (λ e. cc (a, e)))

-- `generate` accepts a prompt exactly where it is not empty, the requester has neither stopped nor been
-- told to, and the prompt leaves room for the NUL in the side buffer of n_ctx bytes.
pub generate_iff :
    (prompt : List ℕ) (s : Requester)
    → (generate prompt s ≡ waiting prompt) ↔ (
        (prompt ≢ [])
        × (s.stop_requested ≡ false)
        × (s.stopped ≡ false)
        × (length prompt + 1 ≤ s.context_size))
unfolding generate
generate_iff [] s = (λ h. ground arith, λ h. absurd (h.0 refl))
generate_iff (b ∷ prompt) s = (λ h. ground arith, λ h. ground arith)

-- One whole turn, from an orderly state. With the module waiting and nothing running, `generate` hands over
-- the prompt; the module's next request for a prompt resolves that generation, and leaves the requester
-- waiting again.
pub generation_turn :
    (encoded : List ℕ) (cb cb' : ℕ) (s : Requester)
    → IsOrderly (core s)
    → s.stop_requested ≡ false
    → s.stopped ≡ false
    → s.active ≡ none
    → s.prompt_waiter ≡ some cb
    → let (answer, t) = generate_ready encoded s in
      let u = pending_prompt cb' t in
      (answer ≡ running s.next_generation)
      × (t.log ≡ prompted cb encoded ∷ s.log)
      × (t.active ≡ some s.next_generation)
      × (t.prompt_waiter ≡ none)
      × (u.generations s.next_generation ≡ resolved)
      × (u.active ≡ none)
      × (u.prompt_waiter ≡ some cb')
      × (u.cancel_requested ≡ false)
unfolding generate_ready deliver_prompt pending_prompt finish_generation abort_generation
    settle_resolve
generation_turn encoded cb cb' s v h k a w = ground (arith, v.fresh s.next_generation)

-- In an orderly state that no stop was asked for, cancel() does not turn the running generation into a
-- failure: the module's next request for a prompt resolves it, and the flag is down for the generation after.
pub cancel_resolves :
    (cb g : ℕ) (s : Requester)
    → IsOrderly (core s)
    → s.stop_requested ≡ false
    → s.active ≡ some g
    → ((cancel s).cancel_requested ≡ true)
      × ((pending_prompt cb (cancel s)).generations g ≡ resolved)
      × ((pending_prompt cb (cancel s)).cancel_requested ≡ false)
      × ((pending_prompt cb (cancel s)).prompt_waiter ≡ some cb)
unfolding cancel pending_prompt finish_generation abort_generation settle_resolve
cancel_resolves cb g s v h a = ground (arith, v.running g a)

-- In an orderly state, an exit that nobody asked for, with any code, 0 too, rejects the running generation,
-- leaves neither `ready` nor `exited` pending and closes the cache; later prompts are refused.
pub on_exit_unasked :
    (code g : ℕ) (prompt : List ℕ) (s : Requester)
    → IsOrderly (core s)
    → s.stop_requested ≡ false
    → s.active ≡ some g
    → ((on_exit code s).generations g ≡ rejected (Failure.exited_unexpectedly code))
      × ((on_exit code s).active ≡ none)
      × ((on_exit code s).ready ≢ pending)
      × ((on_exit code s).exited ≢ pending)
      × ((on_exit code s).chunk_cache ≢ Cache.opened)
      × (generate prompt (on_exit code s) ≢ waiting prompt)
unfolding on_exit fail abort_generation settle_reject close_cache generate
on_exit_unasked code g prompt s v h a = ground (arith, v.running g a)

-- An abort while the module waits for a prompt does not bar the next one: `generate` still hands exactly
-- that prompt to the callback of the aborted module, and reports a running generation.
pub on_abort_open :
    (reason : String) (encoded : List ℕ) (cb : ℕ) (s : Requester)
    → s.stop_requested ≡ false
    → s.stopped ≡ false
    → s.active ≡ none
    → s.prompt_waiter ≡ some cb
    → s.ready ≡ resolved
    → let aborted = on_abort reason s in
      let (answer, t) = generate_ready encoded aborted in
      (aborted.ready ≡ resolved)
      × (answer ≡ running s.next_generation)
      × (t.log ≡ prompted cb encoded ∷ aborted.log)
      × (t.active ≡ some s.next_generation)
unfolding on_abort fail abort_generation generate_ready deliver_prompt settle_reject
on_abort_open reason encoded cb s h k a w r = ground arith

-- What the module hears where it waits: the empty prompt, which ends the session.
abbrev pub ended : Option ℕ → List Output → List Output
ended none log = log
ended (some cb) log = prompted cb [] ∷ log

-- After an abort with the cache open, stop() does not fall back, whatever the time-outs would say: it makes
-- no peer manager close, it does not force the exit and it leaves the cache open, since the abort has settled
-- `exited`. The most that happens is that a callback which waits for a prompt is handed the empty one.
pub abort_then_stop :
    (reason : String) (in_time in_time' : Bool) (s : Requester)
    → s.chunk_cache ≡ Cache.opened
    → let t = stop_rest in_time in_time' (stop (on_abort reason s)) in
      (t.exited ≢ pending)
      × (t.chunk_cache ≡ Cache.opened)
      × (t.log ≡ ended s.prompt_waiter (errored (Failure.aborted reason) ∷ flushed ∷ s.log))
unfolding on_abort fail abort_generation stop deliver_prompt stop_rest wait_or_timeout stop_by_force
    stop_end settle_reject
abort_then_stop reason in_time in_time' s opened = ground arith
