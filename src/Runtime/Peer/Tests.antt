-- ===== src/Runtime/Peer/Tests.antt =====
-- Runs of a peer of runtime/llmlet-runtime.js.
use dip_distributed_llm_runt.Prelude.{◌≡◌, ◌≢◌, refl, sym, ◌∙◌, false}
use dip_distributed_llm_runt.Runtime.Deferred.{Failure, pending, rejected}
use dip_distributed_llm_runt.Runtime.Peer.{
  Peer, Phase, start, cache_opened, factory_resolved, on_exit,
}
use dip_distributed_llm_runt.Runtime.Peer.Life.{
  Reach, opens_cache, launches, here, next, IsLawful, Reach-IsLawful, exit_unasked,
}

abbrev loaded : Peer
loaded = cache_opened start

abbrev serving : Peer
serving = factory_resolved loaded

loaded_phase : loaded.phase ≡ Phase.instantiating
unfolding cache_opened start
loaded_phase = refl

serving-Reach : Reach serving
unfolding start
serving-Reach = next (next here (opens_cache start refl)) (launches loaded loaded_phase)

Reach-IsLawful_example : IsLawful serving
Reach-IsLawful_example = Reach-IsLawful serving-Reach

serving_fields : (serving.stopping ≡ false) × (serving.exited ≡ pending)
unfolding factory_resolved cache_opened start
serving_fields = (refl, refl)

exited_settled : (on_exit 0 serving).exited ≢ pending
exited_settled e = absurd (
    let f : rejected (Failure.exited_unexpectedly 0) ≡ pending =
      sym (exit_unasked 0 serving serving_fields.0 serving_fields.1).0 ∙ e in
    cc)

-- An exit with code 0 stays a failure when stop() comes after it.
start_fields : (start.phase ≡ Phase.loading) × (start.exited ≡ pending)
unfolding start
start_fields = (refl, refl)
