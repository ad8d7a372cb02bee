-- ===== src/Runtime/Requester/Orderly.antt =====
-- The steps of startRequester in runtime/llmlet-runtime.js and the invariant of Steps.
use dip_distributed_llm_runt.Prelude.{
  ℕ, ◌≡◌, ◌≢◌, refl, Bool, true, List, [], ◌∷◌, none, some, arith, inl, inr, Option-cases, if-cases,
  if◌then◌else◌, ◌||◌,
}
use dip_distributed_llm_runt.Runtime.Deferred.{Failure, settle_resolve, close_cache}
use dip_distributed_llm_runt.Runtime.Requester.{
  Requester, prompted, flushed, force_exited, peers_closed, Phase, Call, waiting, deliver_prompt,
  finish_generation, pending_prompt, on_exit, on_abort, startup_failed, cache_opened,
  model_prepared, instantiated, generate, generate_ready, begin_generation, cancel, stop,
  stop_by_force, stop_end,
}
use dip_distributed_llm_runt.Runtime.Requester.Steps.{
  Step, opens_cache, prepares, instantiates, startup_fails, prompts, exits, aborts, resumes,
  cancels, stops, forces, stop_ends, Reach, here, next, core, IsOrderly,
}
use dip_distributed_llm_runt.Runtime.Requester.Settling.{
  start-IsOrderly, EndsOnStop-stopping, abort_generation-IsOrderly, fail-IsOrderly,
  abort_generation-active, with_log, with_settled, with_waiter, without_waiter, with_stop,
}

finish_generation-IsOrderly :
    (s : Requester)
    → IsOrderly (core s)
    → IsOrderly (core (finish_generation s)) × ((finish_generation s).active ≡ none)
unfolding finish_generation settle_resolve
finish_generation-IsOrderly s v = elim (Option-cases s.active) [
  | inl a ↦ rw (a, finish_generation) (v, a)
  | inr (g, a) ↦
      (let e = Failure.interrupted_by_stop in
        rw (a, finish_generation)
          (if-cases (λ t. IsOrderly (core t) × (t.active ≡ none)) s.stop_requested
            (λ _. (abort_generation-IsOrderly e s v, abort_generation-active e s))
            (λ _. (with_settled (core s) v g settle_resolve a (λ h. cc), refl))))
]

pending_prompt-IsOrderly :
    (cb : ℕ) (s : Requester) → IsOrderly (core s) → IsOrderly (core (pending_prompt cb s))
unfolding pending_prompt
pending_prompt-IsOrderly cb s v =
    let s' = finish_generation (record s { ready = settle_resolve s.ready }) in
    let (w, a) = finish_generation-IsOrderly (record s { ready = settle_resolve s.ready }) v in
    if-cases (λ t. IsOrderly (core t)) s'.stop_requested
      (λ b. with_log (core s') w (prompted cb [] ∷ s'.log) ((λ e. b), w.ends))
      (λ b. with_waiter (core s') w cb a)

on_exit-IsOrderly :
    (code : ℕ) (s : Requester) → IsOrderly (core s) → IsOrderly (core (on_exit code s))
unfolding on_exit
on_exit-IsOrderly code s v =
    let w = with_log (core s) v (flushed ∷ s.log) v.ends in
    let s' = record s {
      stopped = true;
      chunk_cache = close_cache s.chunk_cache;
      log = flushed ∷ s.log;
    } in
    if-cases (λ t. IsOrderly (core t)) s.stop_requested
      (λ _. abort_generation-IsOrderly Failure.interrupted_by_stop s' w)
      (λ _. fail-IsOrderly (Failure.exited_unexpectedly code) s' w)

stop-IsOrderly : (s : Requester) → IsOrderly (core s) → IsOrderly (core (stop s))
unfolding stop deliver_prompt
stop-IsOrderly s v = elim (Option-cases s.prompt_waiter) [
  | inl e ↦ rw (e, stop) (with_stop (core s) v)
  | inr (cb, e) ↦
      rw (e, stop)
        (with_log (record (core s) { stop_requested = true; prompt_waiter = none })
          (without_waiter (record (core s) { stop_requested = true }) (with_stop (core s) v))
          (prompted cb [] ∷ s.log) ((λ _. refl), EndsOnStop-stopping s.log))
]

-- `generate` gives a prompt to the module only once it has found it non-empty.
generate_waiting :
    (prompt encoded : List ℕ) (s : Requester) → generate prompt s ≡ waiting encoded → encoded ≢ []
unfolding generate
generate_waiting [] encoded s h = ground arith
generate_waiting (b ∷ prompt) encoded s h = ground arith

begin-IsOrderly :
    (cb : ℕ) (encoded : List ℕ) (s : Requester)
    → IsOrderly (core s)
    → encoded ≢ []
    → s.active ≡ none
    → IsOrderly (
        core
          (record (begin_generation s) { prompt_waiter = none; log = prompted cb encoded ∷ s.log }))
begin-IsOrderly cb encoded s v ne a = record {
  exclusive = λ _ e. cc;
  running = λ g e. ground (arith, v.fresh s.next_generation);
  settled = λ g h n. v.settled g (ground arith) (λ e. cc (a, e));
  fresh = λ g h. v.fresh g (omega arith);
  ends = ((λ e. absurd (ne e)), v.ends);
}

deliver_prompt_waiting :
    (cb : ℕ) (encoded : List ℕ) (s : Requester)
    → s.prompt_waiter ≡ some cb
    → deliver_prompt encoded s
      ≡ (true, record s { prompt_waiter = none; log = prompted cb encoded ∷ s.log })
unfolding deliver_prompt
deliver_prompt_waiting cb encoded s e = rw (e, deliver_prompt)

generate_ready-IsOrderly :
    (encoded : List ℕ) (s : Requester)
    → encoded ≢ []
    → IsOrderly (core s)
    → IsOrderly (core (generate_ready encoded s).1)
unfolding generate_ready
generate_ready-IsOrderly encoded s ne v =
    if-cases (λ (r : Call × Requester). IsOrderly (core r.1)) (s.stop_requested || s.stopped)
      (λ _. v)
      (λ _. elim (Option-cases s.active) [
        | inr (g, a) ↦ rw (a, generate_ready) v
        | inl a ↦ elim (Option-cases s.prompt_waiter) [
          | inl w ↦ rw (a, w) v
          | inr (cb, w) ↦
              rw (a, w, deliver_prompt_waiting cb encoded (begin_generation s) w)
                (begin-IsOrderly cb encoded s v ne a)
        ]
      ])

pub stop_end-IsOrderly :
    (clean : Bool) (s : Requester) → IsOrderly (core s) → IsOrderly (core (stop_end clean s))
unfolding stop_end
stop_end-IsOrderly clean s v =
    abort_generation-IsOrderly Failure.interrupted_by_stop
      (record s { chunk_cache = if clean then s.chunk_cache else close_cache s.chunk_cache }) v

pub Step-IsOrderly : {s t : Requester} → Step s t → IsOrderly (core s) → IsOrderly (core t)
unfolding cache_opened model_prepared instantiated startup_failed on_abort cancel stop_by_force
Step-IsOrderly (opens_cache s) v = v
Step-IsOrderly (prepares s) v =
    if-cases (λ t. IsOrderly (core t)) s.stop_requested (λ _. v) (λ _. v)
Step-IsOrderly (instantiates s) v =
    if-cases (λ t. IsOrderly (core t)) s.stop_requested
      (λ _. with_log (core s) v (force_exited ∷ s.log) v.ends) (λ _. v)
Step-IsOrderly (startup_fails error s) v =
    fail-IsOrderly (Failure.raised error)
      (record s { phase = Phase.over; chunk_cache = close_cache s.chunk_cache }) v
Step-IsOrderly (prompts cb s) v = pending_prompt-IsOrderly cb s v
Step-IsOrderly (exits code s) v = on_exit-IsOrderly code s v
Step-IsOrderly (aborts reason s) v = fail-IsOrderly (Failure.aborted reason) s v
Step-IsOrderly (resumes encoded called s h) v =
    generate_ready-IsOrderly encoded s (generate_waiting encoded encoded called h) v
Step-IsOrderly (cancels s) v = elim (Option-cases s.active) [
  | inl e ↦ rw (e, cancel) v
  | inr (g, e) ↦ rw (e, cancel) v
]
Step-IsOrderly (stops s) v = stop-IsOrderly s v
Step-IsOrderly (forces s) v = with_log (core s) v (force_exited ∷ peers_closed ∷ s.log) v.ends
Step-IsOrderly (stop_ends clean s) v = stop_end-IsOrderly clean s v

-- Whatever order the hooks, the calls and the start-up come in: the module waits for a prompt only
-- while no generation runs, the running generation is pending and every other one that was started has
-- settled, and an empty prompt, which ends the session, is sent only after stop().
pub Reach-IsOrderly : {n : ℕ} {s : Requester} → Reach n s → IsOrderly (core s)
Reach-IsOrderly {n} here = start-IsOrderly n
Reach-IsOrderly (next r st) = Step-IsOrderly st (Reach-IsOrderly r)
