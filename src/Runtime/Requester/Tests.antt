-- ===== src/Runtime/Requester/Tests.antt =====
-- Runs of the requester, and its theorems at concrete inputs.
use dip_distributed_llm_runt.Prelude.{ℕ, ◌≡◌, ◌≢◌, refl, false, List, [], ◌∷◌, some, none, arith}
use dip_distributed_llm_runt.Runtime.Deferred.{Failure, pending, resolved, Cache, settle_resolve}
use dip_distributed_llm_runt.Runtime.Requester.{
  Requester, prompted, waiting, running, start, pending_prompt, finish_generation, generate,
  generate_ready, cache_opened, errored, flushed, deliver_prompt, abort_generation, stop, stop_end,
  on_abort, stop_rest,
}
use dip_distributed_llm_runt.Runtime.Requester.Steps.{
  prompts, resumes, Reach, here, next, core, IsOrderly,
}
use dip_distributed_llm_runt.Runtime.Requester.Orderly.{Reach-IsOrderly}
use dip_distributed_llm_runt.Runtime.Requester.Promises.{
  Step-unresolved, stop_end_settles, generation_turn, on_abort_open, abort_then_stop, ended,
}

abbrev greeting : List ℕ
greeting = 104 ∷ 105 ∷ []

-- The module has asked for its first prompt.
abbrev idle : Requester
idle = pending_prompt 0 (start 16)

-- It has been given one.
abbrev busy : Requester
busy = (generate_ready greeting idle).1

accepted : generate greeting idle ≡ waiting greeting
unfolding generate pending_prompt finish_generation start
accepted = refl

idle-Reach : Reach 16 idle
idle-Reach = next here (prompts 0 (start 16))

busy-Reach : Reach 16 busy
busy-Reach = next idle-Reach (resumes greeting idle idle accepted)

Reach-IsOrderly_example : IsOrderly (core busy)
Reach-IsOrderly_example = Reach-IsOrderly busy-Reach

busy-IsOrderly : IsOrderly (core busy)
busy-IsOrderly = Reach-IsOrderly busy-Reach

Step-unresolved_example : (pending_prompt 1 (stop busy)).generations 0 ≢ resolved
unfolding generate_ready deliver_prompt pending_prompt finish_generation start stop
Step-unresolved_example = Step-unresolved 0 (prompts 1 (stop busy)) refl refl

stop_end_settles_example :
    ((stop_end false busy).ready ≢ pending)
    × ((stop_end false busy).active ≡ none)
    × ((stop_end false busy).generations 0 ≢ pending)
unfolding stop_end generate_ready deliver_prompt pending_prompt finish_generation start
    abort_generation
stop_end_settles_example = stop_end_settles false busy 0 busy-IsOrderly (omega arith)

idle-IsOrderly : IsOrderly (core idle)
idle-IsOrderly = Reach-IsOrderly idle-Reach

generation_turn_example :
    let (answer, t) = generate_ready greeting idle in
    let u = pending_prompt 1 t in
    (answer ≡ running idle.next_generation)
    × (t.log ≡ prompted 0 greeting ∷ idle.log)
    × (t.active ≡ some idle.next_generation)
    × (t.prompt_waiter ≡ none)
    × (u.generations idle.next_generation ≡ resolved)
    × (u.active ≡ none)
    × (u.prompt_waiter ≡ some 1)
    × (u.cancel_requested ≡ false)
unfolding pending_prompt finish_generation start
generation_turn_example = generation_turn greeting 0 1 idle idle-IsOrderly refl refl refl refl

on_abort_open_example :
    let aborted = on_abort "oom" idle in
    let (answer, t) = generate_ready greeting aborted in
    (aborted.ready ≡ resolved)
    × (answer ≡ running idle.next_generation)
    × (t.log ≡ prompted 0 greeting ∷ aborted.log)
    × (t.active ≡ some idle.next_generation)
unfolding pending_prompt finish_generation start settle_resolve
on_abort_open_example = on_abort_open "oom" greeting 0 idle refl refl refl refl refl

-- A generation runs, with the cache open.
abbrev cached : Requester
cached = (generate_ready greeting (pending_prompt 0 (cache_opened (start 64)))).1

abort_then_stop_example :
    let t = stop_rest false false (stop (on_abort "oom" cached)) in
    (t.exited ≢ pending)
    × (t.chunk_cache ≡ Cache.opened)
    × (t.log ≡ ended cached.prompt_waiter (errored (Failure.aborted "oom") ∷ flushed ∷ cached.log))
unfolding generate_ready deliver_prompt pending_prompt finish_generation cache_opened start
abort_then_stop_example = abort_then_stop "oom" false false cached refl
