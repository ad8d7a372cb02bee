-- ===== src/Runtime/Peer/Life.antt =====
-- runtime/llmlet-runtime.js, startPeer: how the promises of a peer settle, in any order of events.
use dip_distributed_llm_runt.Prelude.{ℕ, ◌≡◌, ◌≢◌, refl, Bool, true, false, String, arith}
use dip_distributed_llm_runt.Runtime.Deferred.{
  Failure, pending, resolved, rejected, settle_resolve, settle_reject, Cache, close_cache,
}
use dip_distributed_llm_runt.Runtime.Peer.{
  Peer, Phase, start, fail, safe_force_exit, cache_opened, factory_resolved, startup_failed,
  on_runtime_initialized, on_exit, on_abort, stop, stop_end,
}

-- What can happen to a peer. The start-up function runs once, so its stretches need their phase.
pub data Step : Peer → Peer → Type 0 where
  opens_cache : (s : Peer) → s.phase ≡ Phase.loading → Step s (cache_opened s)
  launches : (s : Peer) → s.phase ≡ Phase.instantiating → Step s (factory_resolved s)
  startup_fails :
      (error : String) (s : Peer)
      → s.phase ≢ Phase.over
      → s.phase ≢ Phase.launched
      → Step s (startup_failed error s)
  initializes : (s : Peer) → Step s (on_runtime_initialized s)
  exits : (code : ℕ) (s : Peer) → Step s (on_exit code s)
  aborts : (reason : String) (s : Peer) → Step s (on_abort reason s)
  stops : (s : Peer) → Step s (stop s)
  stop_ends : (clean : Bool) (s : Peer) → s.stopping ≡ true → Step s (stop_end clean s)

pub data Reach : Peer → Type 0 where
  here : Reach start
  next : {s t : Peer} → Reach s → Step s t → Reach t

pub record IsLawful (s : Peer) : Type 0 where
  -- `exited` resolves for a stop alone.
  pub asked : s.exited ≡ resolved → s.stopping ≡ true
  -- The cache is there once the start-up function is past it.
  pub cached : s.phase ≡ Phase.instantiating → s.has_module ≡ true
  -- Before the cache is open there is none to close.
  pub uncached : s.phase ≡ Phase.loading → s.chunk_cache ≡ Cache.absent
  -- A start-up that is over leaves no cache open and `exited` settled.
  pub ended : s.phase ≡ Phase.over → (s.exited ≢ pending) × (s.chunk_cache ≢ Cache.opened)

start-IsLawful : IsLawful start
unfolding start
start-IsLawful = record {
  asked = λ e. cc;
  cached = λ e. cc;
  uncached = λ _. refl;
  ended = λ e. absurd (cc);
}

Step-IsLawful : {s t : Peer} → Step s t → IsLawful s → IsLawful t
unfolding cache_opened factory_resolved startup_failed fail on_runtime_initialized on_exit on_abort
    stop stop_end safe_force_exit settle_resolve settle_reject close_cache
Step-IsLawful (opens_cache s p) h = record {
  asked = ground (arith, h.asked);
  cached = ground arith;
  uncached = ground arith;
  ended = ground arith;
}
Step-IsLawful (launches s p) h = record {
  asked = ground (arith, h.asked);
  cached = ground arith;
  uncached = ground arith;
  ended = ground arith;
}
Step-IsLawful (startup_fails error s p q) h = record {
  asked = ground (arith, h.asked);
  cached = ground arith;
  uncached = ground arith;
  ended = ground arith;
}
Step-IsLawful (initializes s) h = record {
  asked = ground (arith, h.asked);
  cached = h.cached;
  uncached = h.uncached;
  ended = h.ended;
}
Step-IsLawful (exits code s) h = record {
  asked = ground (arith, h.asked);
  cached = ground (arith, h.cached);
  uncached = ground (arith, h.uncached);
  ended = ground (arith, h.ended);
}
Step-IsLawful (aborts reason s) h = record {
  asked = ground (arith, h.asked);
  cached = h.cached;
  uncached = h.uncached;
  ended = ground (arith, h.ended);
}
Step-IsLawful (stops s) h = record {
  asked = ground (arith, h.asked);
  cached = ground (arith, h.cached);
  uncached = ground (arith, h.uncached);
  ended = ground (arith, h.ended);
}
Step-IsLawful (stop_ends clean s p) h = record {
  asked = ground (arith, h.asked);
  cached = ground (arith, h.cached);
  uncached = ground (arith, h.uncached);
  ended = ground (arith, h.ended);
}

-- In any order of hooks, calls and start-up events: `exited` resolves only after stop() was called, so an
-- exit that nobody asked for never looks like a clean one, and a start-up that ended early has settled
-- `exited` and left no cache open.
pub Reach-IsLawful : {s : Peer} → Reach s → IsLawful s
Reach-IsLawful here = start-IsLawful
Reach-IsLawful (next r st) = Step-IsLawful st (Reach-IsLawful r)

-- Once `exited` of a peer has settled, nothing that happens changes it.
pub Step-settled : {s t : Peer} → Step s t → s.exited ≢ pending → t.exited ≡ s.exited
unfolding cache_opened factory_resolved startup_failed fail on_runtime_initialized on_exit on_abort
    stop stop_end safe_force_exit settle_resolve settle_reject
Step-settled (opens_cache s p) h = ground arith
Step-settled (launches s p) h = ground arith
Step-settled (startup_fails error s p q) h = ground arith
Step-settled (initializes s) h = ground arith
Step-settled (exits code s) h = ground arith
Step-settled (aborts reason s) h = ground arith
Step-settled (stops s) h = ground arith
Step-settled (stop_ends clean s p) h = ground arith

-- A stop() that lands while the cache is being opened keeps the WASM module from starting: when the
-- cache is open, the start-up ends there, with the cache closed and `exited` resolved, and when stop()
-- returns nobody waits for `ready`.
pub stop_while_loading :
    (clean : Bool) (s : Peer)
    → IsLawful s
    → s.phase ≡ Phase.loading
    → s.exited ≡ pending
    → ((cache_opened (stop s)).phase ≡ Phase.over)
      × ((cache_opened (stop s)).chunk_cache ≡ Cache.closed)
      × ((cache_opened (stop s)).exited ≡ resolved)
      × ((stop_end clean (cache_opened (stop s))).ready ≢ pending)
unfolding cache_opened stop stop_end safe_force_exit settle_resolve settle_reject close_cache
stop_while_loading clean s h p e = ground arith

-- An exit that nobody asked for, with any code, 0 too, rejects `ready` and `exited` where they are
-- pending, and leaves the cache closed.
pub exit_unasked :
    (code : ℕ) (s : Peer)
    → s.stopping ≡ false
    → s.exited ≡ pending
    → ((on_exit code s).exited ≡ rejected (Failure.exited_unexpectedly code))
      × ((on_exit code s).ready ≢ pending)
      × ((on_exit code s).chunk_cache ≢ Cache.opened)
unfolding on_exit fail settle_reject close_cache
exit_unasked code s h e = ground arith
