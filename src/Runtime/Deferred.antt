-- ===== src/Runtime/Deferred.antt =====
-- runtime/llmlet-runtime.js: `deferred`, `settleResolve` and `settleReject`, and the errors that the
-- two runtimes settle with.
use dip_distributed_llm_runt.Prelude.{ℕ, String}

-- The errors by the place that makes them; `raised` is one that came from outside.
pub data Failure : Type 0 where
  stopped_before_ready : Failure
  interrupted_by_stop : Failure
  exited_unexpectedly : (code : ℕ) → Failure
  aborted : (reason : String) → Failure
  prompt_empty : Failure
  prompt_too_long : Failure
  stopping : Failure
  already_running : Failure
  not_waiting : Failure
  not_delivered : Failure
  no_peers : Failure
  duplicate_peers : Failure
  raised : String → Failure

pub data Deferred : Type 0 where
  pending : Deferred
  resolved : Deferred
  rejected : Failure → Deferred

-- A settled promise stays as it is.
unfoldable pub settle_resolve : Deferred → Deferred
settle_resolve pending = resolved
settle_resolve resolved = resolved
settle_resolve (rejected e) = rejected e

unfoldable pub settle_reject : Failure → Deferred → Deferred
settle_reject e pending = rejected e
settle_reject e resolved = resolved
settle_reject e (rejected e') = rejected e'

-- The chunk cache of a runtime: not yet opened, open, or closed.
pub data Cache : Type 0 where
  absent opened closed : Cache

-- `chunkCache?.close()`
unfoldable pub close_cache : Cache → Cache
close_cache absent = absent
close_cache opened = closed
close_cache closed = closed
