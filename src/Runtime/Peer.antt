-- ===== src/Runtime/Peer.antt =====
-- runtime/llmlet-runtime.js, startPeer: the state that its closures share, the hooks of the WASM module,
-- and stop. The start-up function is cut at its awaits; `log` has what leaves the adapter, newest first.
pub mod Life
mod Tests
use dip_distributed_llm_runt.Prelude.{ℕ, Bool, true, false, if◌then◌else◌, List, [], ◌∷◌, String}
use dip_distributed_llm_runt.Runtime.Deferred.{
  Failure, Deferred, pending, settle_resolve, settle_reject, Cache, close_cache,
}

pub data Output : Type 0 where
  errored : Failure → Output
  force_exited : Output
  peers_closed : Output

-- Where the start-up function is: before the cache is open, waiting for the factory, after it, or over
-- after a stop or an error.
pub data Phase : Type 0 where
  loading instantiating launched over : Phase

pub record Peer : Type 0 where
  pub phase : Phase
  pub ready : Deferred
  pub exited : Deferred
  pub has_module : Bool
  pub chunk_cache : Cache
  pub stopping : Bool
  pub log : List Output

unfoldable pub start : Peer
start = record {
  phase = Phase.loading;
  ready = pending;
  exited = pending;
  has_module = false;
  chunk_cache = Cache.absent;
  stopping = false;
  log = [];
}

abbrev pub say : Output → Peer → Peer
say o s = record s { log = o ∷ s.log }

unfoldable pub fail : Failure → Peer → Peer
fail e s =
    let told = say (errored e) s in
    record told { ready = settle_reject e told.ready; exited = settle_reject e told.exited }

-- `safeForceExit`: the module, if there is one, is told to exit.
unfoldable pub safe_force_exit : Peer → Peer
safe_force_exit s = if s.has_module then say force_exited s else s

-- The start-up function from the open cache to the factory's await.
unfoldable pub cache_opened : Peer → Peer
cache_opened s =
    let s' = record s { chunk_cache = Cache.opened; has_module = true } in
    if s'.stopping
    then record s' {
      phase = Phase.over;
      chunk_cache = close_cache s'.chunk_cache;
      exited = settle_resolve s'.exited;
    }
    else record s' { phase = Phase.instantiating }

-- After `await moduleFactory.default(Module)`.
unfoldable pub factory_resolved : Peer → Peer
factory_resolved s =
    let s' = record s { phase = Phase.launched } in
    if s'.stopping then safe_force_exit s' else record s' { ready = settle_resolve s'.ready }

-- `catch (error)` of the start-up function.
unfoldable pub startup_failed : String → Peer → Peer
startup_failed error s =
    fail (Failure.raised error)
      (record s { phase = Phase.over; chunk_cache = close_cache s.chunk_cache })

unfoldable pub on_runtime_initialized : Peer → Peer
on_runtime_initialized s = record s { ready = settle_resolve s.ready }

unfoldable pub on_exit : ℕ → Peer → Peer
on_exit code s =
    let s' = record s { chunk_cache = close_cache s.chunk_cache } in
    if s'.stopping
    then record s' { exited = settle_resolve s'.exited }
    else fail (Failure.exited_unexpectedly code) s'

unfoldable pub on_abort : String → Peer → Peer
on_abort reason s = fail (Failure.aborted reason) s

-- `stop` up to its await.
unfoldable pub stop : Peer → Peer
stop s = safe_force_exit (say peers_closed (record s { stopping = true }))

-- The end of `stop`; `clean` says that `exited` settled in time.
unfoldable pub stop_end : Bool → Peer → Peer
stop_end clean s =
    let s' = record s {
      chunk_cache = if clean then s.chunk_cache else close_cache s.chunk_cache;
    } in
    record s' { ready = settle_reject Failure.stopped_before_ready s'.ready }
