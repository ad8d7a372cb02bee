-- ===== src/Runtime/Requester/Settling.antt =====
-- The parts of the steps of startRequester in runtime/llmlet-runtime.js, and the invariant of Steps.
use dip_distributed_llm_runt.Prelude.{
  ℕ, ◌≡◌, ◌≢◌, refl, true, List, [], ◌∷◌, none, some, arith, inl, inr, Option-cases, ℕ_discrete,
  if_pos, if_neg,
}
use dip_distributed_llm_runt.Runtime.Deferred.{Failure, Deferred, pending, settle_reject}
use dip_distributed_llm_runt.Runtime.Requester.{
  Requester, Output, prompted, errored, flushed, force_exited, peers_closed, start, settle,
  abort_generation, fail,
}
use dip_distributed_llm_runt.Runtime.Requester.Steps.{EndsOnStop, Core, core, IsOrderly}

pub start-IsOrderly : (n : ℕ) → IsOrderly (core (start n))
unfolding start
start-IsOrderly n = record {
  exclusive = λ cb e. cc;
  running = λ g e. cc;
  settled = λ g h. absurd (omega arith);
  fresh = λ g h. refl;
  ends = tt;
}

pub EndsOnStop-stopping : (log : List Output) → EndsOnStop true log
EndsOnStop-stopping [] = tt
EndsOnStop-stopping (prompted cb text ∷ log) = ((λ e. refl), EndsOnStop-stopping log)
EndsOnStop-stopping (errored e ∷ log) = EndsOnStop-stopping log
EndsOnStop-stopping (flushed ∷ log) = EndsOnStop-stopping log
EndsOnStop-stopping (force_exited ∷ log) = EndsOnStop-stopping log
EndsOnStop-stopping (peers_closed ∷ log) = EndsOnStop-stopping log

module _ (s : Core) (v : IsOrderly s) where
  pub with_log :
      (log : List Output) → EndsOnStop s.stop_requested log → IsOrderly (record s { log = log })
  with_log log e = record {
    exclusive = v.exclusive;
    running = v.running;
    settled = v.settled;
    fresh = v.fresh;
    ends = e;
  }

  -- The running generation settles.
  pub with_settled :
      (g : ℕ) (f : Deferred → Deferred)
      → s.active ≡ some g
      → f pending ≢ pending
      → IsOrderly (record s { active = none; generations = settle g f s.generations })
  with_settled g f a ne = record {
    exclusive = λ cb e. refl;
    running = λ q e. cc;
    settled = λ q h n. elim (ℕ_discrete q g) [
      | yes p ↦ rw (if_pos (ℕ_discrete q g) p, (v.running g a).0) ne
      | no p ↦ rw (if_neg (ℕ_discrete q g) p) (v.settled q h (λ e. p (cc (a, e))))
    ];
    fresh = λ q h. ground (arith, v.fresh q h, v.running g a);
    ends = v.ends;
  }

  pub with_waiter : (cb : ℕ) → s.active ≡ none → IsOrderly (record s { prompt_waiter = some cb })
  with_waiter cb a = record {
    exclusive = λ _ _. a;
    running = v.running;
    settled = v.settled;
    fresh = v.fresh;
    ends = v.ends;
  }

  pub without_waiter : IsOrderly (record s { prompt_waiter = none })
  without_waiter = record {
    exclusive = λ _ e. cc;
    running = v.running;
    settled = v.settled;
    fresh = v.fresh;
    ends = v.ends;
  }

  pub with_stop : IsOrderly (record s { stop_requested = true })
  with_stop = record {
    exclusive = v.exclusive;
    running = v.running;
    settled = v.settled;
    fresh = v.fresh;
    ends = EndsOnStop-stopping s.log;
  }

pub abort_generation-IsOrderly :
    (e : Failure) (s : Requester) → IsOrderly (core s) → IsOrderly (core (abort_generation e s))
unfolding abort_generation settle_reject
abort_generation-IsOrderly e s v = elim (Option-cases s.active) [
  | inl a ↦ rw (a, abort_generation) v
  | inr (g, a) ↦ rw (a, abort_generation) (with_settled (core s) v g (settle_reject e) a (λ h. cc))
]

pub fail-IsOrderly :
    (e : Failure) (s : Requester) → IsOrderly (core s) → IsOrderly (core (fail e s))
unfolding fail
fail-IsOrderly e s v =
    abort_generation-IsOrderly e
      (record s { log = errored e ∷ flushed ∷ s.log; ready = settle_reject e s.ready })
      (with_log (core s) v (errored e ∷ flushed ∷ s.log) v.ends)

pub abort_generation-active : (e : Failure) (s : Requester) → (abort_generation e s).active ≡ none
unfolding abort_generation
abort_generation-active e s = ground arith
