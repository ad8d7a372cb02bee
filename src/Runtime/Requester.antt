-- ===== src/Runtime/Requester.antt =====
-- runtime/llmlet-runtime.js, startRequester: the state that its closures share, the hooks that the
-- WASM module calls, and the methods of the object that it returns.
--
-- A promise is a Deferred; a generation's promise is a cell of `generations`, named in order. The
-- callback of `pending_prompt` is a number. What leaves the adapter is an entry of `log`, newest first.
-- An `async` function is one operation for each stretch between two awaits, and the event that resumes
-- it is the operation's argument. `options.peerManager.close` is taken to return.
pub mod Steps
pub mod Settling
pub mod Orderly
pub mod Promises
mod Tests
use dip_distributed_llm_runt.Prelude.{
  ℕ, suc, ◌+◌, ◌-◌, Bool, true, false, if◌then◌else◌, ite, List, [], ◌∷◌, Option, none, some,
  String, leb, ◌||◌, length, ℕ_discrete,
}
use dip_distributed_llm_runt.Runtime.Deferred.{
  Failure, Deferred, pending, resolved, rejected, settle_resolve, settle_reject, Cache, close_cache,
}

pub data Output : Type 0 where
  prompted : (callback : ℕ) → List ℕ → Output
  errored : Failure → Output
  flushed : Output
  force_exited : Output
  peers_closed : Output

-- Where the start-up function is: it loads the module factory and the cache, prepares the model, and
-- waits for the factory. `launched` is after that, and `over` after a return or an error.
pub data Phase : Type 0 where
  loading preparing instantiating launched over : Phase

pub record Requester : Type 0 where
  pub context_size : ℕ
  pub phase : Phase
  pub ready : Deferred
  pub exited : Deferred
  pub generations : ℕ → Deferred
  pub next_generation : ℕ
  pub active : Option ℕ
  pub prompt_waiter : Option ℕ
  pub cancel_requested : Bool
  pub stop_requested : Bool
  pub stopped : Bool
  pub chunk_cache : Cache
  pub log : List Output

unfoldable pub start : ℕ → Requester
start context_size = record {
  context_size = context_size;
  phase = Phase.loading;
  ready = pending;
  exited = pending;
  generations = λ _. pending;
  next_generation = 0;
  active = none;
  prompt_waiter = none;
  cancel_requested = false;
  stop_requested = false;
  stopped = false;
  chunk_cache = Cache.absent;
  log = [];
}

abbrev pub say : Output → Requester → Requester
say o s = record s { log = o ∷ s.log }

abbrev pub settle : ℕ → (Deferred → Deferred) → (ℕ → Deferred) → ℕ → Deferred
settle g f generations q = ite (ℕ_discrete q g) (f (generations g)) (generations q)

unfoldable pub abort_generation : Failure → Requester → Requester
abort_generation e s = elim s.active [
  | none ↦ s
  | some g ↦ record s {
    active = none;
    cancel_requested = false;
    generations = settle g (settle_reject e) s.generations;
  }
]

unfoldable pub fail : Failure → Requester → Requester
fail e s =
    let told = say (errored e) (say flushed s) in
    let s' = abort_generation e (record told { ready = settle_reject e told.ready }) in
    record s' { exited = settle_reject e s'.exited }

-- The new state, and whether a callback was waiting.
unfoldable pub deliver_prompt : List ℕ → Requester → Bool × Requester
deliver_prompt encoded s = elim s.prompt_waiter [
  | none ↦ (false, s)
  | some cb ↦ (true, say (prompted cb encoded) (record s { prompt_waiter = none }))
]

-- The middle of `pending_prompt`: the previous generation, if there is one, is over.
unfoldable pub finish_generation : Requester → Requester
finish_generation s = elim s.active [
  | none ↦ s
  | some g ↦ if s.stop_requested then abort_generation Failure.interrupted_by_stop s else record s {
    active = none;
    cancel_requested = false;
    generations = settle g settle_resolve s.generations;
  }
]

unfoldable pub pending_prompt : ℕ → Requester → Requester
pending_prompt cb s =
    let s' = finish_generation (record s { ready = settle_resolve s.ready }) in
    if s'.stop_requested then say (prompted cb []) s' else record s' { prompt_waiter = some cb }

unfoldable pub on_exit : ℕ → Requester → Requester
on_exit code s =
    let s' = say flushed (record s { stopped = true; chunk_cache = close_cache s.chunk_cache }) in
    if s'.stop_requested
    then (let t = abort_generation Failure.interrupted_by_stop s' in
        record t { exited = settle_resolve t.exited })
    else fail (Failure.exited_unexpectedly code) s'

unfoldable pub on_abort : String → Requester → Requester
on_abort reason s = fail (Failure.aborted reason) s

-- `catch (error)` of the start-up function.
unfoldable pub startup_failed : String → Requester → Requester
startup_failed error s =
    fail (Failure.raised error)
      (record s { phase = Phase.over; chunk_cache = close_cache s.chunk_cache })

unfoldable pub cache_opened : Requester → Requester
cache_opened s = record s { phase = Phase.preparing; chunk_cache = Cache.opened }

-- After `await prepareModel`: a stop that came meanwhile ends the start-up here.
unfoldable pub model_prepared : Requester → Requester
model_prepared s =
    if s.stop_requested
    then record s {
      phase = Phase.over;
      stopped = true;
      chunk_cache = close_cache s.chunk_cache;
      exited = settle_resolve s.exited;
    }
    else record s { phase = Phase.instantiating }

-- After `await moduleFactory.default(Module)`.
unfoldable pub instantiated : Requester → Requester
instantiated s =
    let s' = record s { phase = Phase.launched } in
    if s'.stop_requested then say force_exited s' else s'

pub data Call : Type 0 where
  refused : Failure → Call
  waiting : List ℕ → Call
  running : ℕ → Call

-- `generate` up to `await ready.promise`. `prompt` is the prompt's UTF-8 bytes.
unfoldable pub generate : List ℕ → Requester → Call
generate prompt s =
    if leb (length prompt) 0
    then refused Failure.prompt_empty
    else if s.stop_requested || s.stopped
    then refused Failure.stopping
    else if leb s.context_size (length prompt)
    then refused Failure.prompt_too_long
    else waiting prompt

abbrev pub begin_generation : Requester → Requester
begin_generation s = record s {
  active = some s.next_generation;
  next_generation = suc s.next_generation;
  cancel_requested = false;
}

-- `generate` after `ready` resolved.
unfoldable pub generate_ready : List ℕ → Requester → Call × Requester
generate_ready encoded s =
    if s.stop_requested || s.stopped then (refused Failure.stopping, s) else elim s.active [
      | some g ↦ (refused Failure.already_running, s)
      | none ↦ elim s.prompt_waiter [
        | none ↦ (refused Failure.not_waiting, s)
        | some cb ↦
            let (delivered, s') = deliver_prompt encoded (begin_generation s) in
            if delivered
            then (running s.next_generation, s')
            else (refused Failure.not_delivered, record s' { active = none })
      ]
    ]

unfoldable pub cancel : Requester → Requester
cancel s = elim s.active [ none ↦ s | some g ↦ record s { cancel_requested = true } ]

-- `stop` up to its first await.
unfoldable pub stop : Requester → Requester
stop s = (deliver_prompt [] (record s { stop_requested = true; cancel_requested = true })).1

-- The fallback of `stop`, when the exit did not come in time.
unfoldable pub stop_by_force : Requester → Requester
stop_by_force s = say force_exited (say peers_closed s)

-- The end of `stop`; `clean` says that `exited` settled in time.
unfoldable pub stop_end : Bool → Requester → Requester
stop_end clean s =
    let closing = if clean then s.chunk_cache else close_cache s.chunk_cache in
    let t = abort_generation Failure.interrupted_by_stop (record s { chunk_cache = closing }) in
    record t { ready = settle_reject Failure.stopped_before_ready t.ready }

-- `waitOrTimeout(exited.promise, ..)`: a promise that has settled ends the wait at once, with either outcome.
-- `in_time` says whether a pending one settles before the time is over.
unfoldable pub wait_or_timeout : Deferred → Bool → Bool
wait_or_timeout pending in_time = in_time
wait_or_timeout resolved in_time = true
wait_or_timeout (rejected error) in_time = true

-- `stop` from its first await on, where no hook changes the requester while it waits.
unfoldable pub stop_rest : (in_time in_time' : Bool) → Requester → Requester
stop_rest in_time in_time' s =
    if wait_or_timeout s.exited in_time
    then stop_end true s
    else (let t = stop_by_force s in stop_end (wait_or_timeout t.exited in_time') t)
