-- ===== src/CrossCheck/Processes/Waiting.antt =====
-- withHttpModel of scripts/crosscheck-gguf-probe.mjs: which attempt decides.
use dip_distributed_llm_runt.Prelude.{
  ℕ, zero, suc, ◌+◌, ◌<◌, ◌≤◌, ◌≡◌, ◌⊎◌, refl, ap, ◌∙◌, Bool, true, false, Option, none, some,
  arith, Bool-cases, inl, inr,
}
use dip_distributed_llm_runt.CrossCheck.Processes.{
  returned, not_served, max_attempts, wait_loop, serve_model, kill_server, with_http_model,
}

-- An attempt that comes to nothing: the server does not answer, or `fn` rejects.
abbrev pub IsLost : {B : Type 0} → (ℕ → Bool) → (ℕ → Option B) → ℕ → Type 0
IsLost answers fn n = (answers n ≡ false) ⊎ (fn n ≡ none)

wait_loop-lost :
    {B : Type 0} (answers : ℕ → Bool) (fn : ℕ → Option B) (left n calls : ℕ)
    → IsLost answers fn n
    → (more : ℕ) × (wait_loop answers fn (suc left) n calls
        ≡ wait_loop answers fn left (n + 1) (calls + more))
unfolding wait_loop
wait_loop-lost answers fn left n calls lost = elim (Bool-cases (answers n)) [
  | inr e ↦ let same : calls + 0 ≡ calls = omega arith in (0, rw (wait_loop, e, same) refl)
  | inl e ↦ elim lost [ inl q ↦ absurd (cc (e, q)) | inr q ↦ (1, rw (wait_loop, e, q) refl) ]
]

wait_loop-first :
    {B : Type 0} (answers : ℕ → Bool) (fn : ℕ → Option B) (left n calls k : ℕ) (b : B)
    → n ≤ k
    → k < n + left
    → ((m : ℕ) → m < k → IsLost answers fn m)
    → answers k ≡ true
    → fn k ≡ some b
    → (wait_loop answers fn left n calls).0 ≡ returned b
unfolding wait_loop
wait_loop-first answers fn zero n calls k b le lt lost up ok = absurd (omega arith)
wait_loop-first answers fn (suc left) n calls k b le lt lost up ok =
    let split : (n ≡ k) ⊎ (n + 1 ≤ k) = omega arith in
    elim split [
      | inl p ↦
          let up' : answers n ≡ true = rw p up in
          let ok' : fn n ≡ some b = rw p ok in rw (wait_loop, up', ok') refl
      | inr p ↦
          let (more, e) = wait_loop-lost answers fn left n calls (lost n (omega arith)) in
          rw e
            (wait_loop-first answers fn left (n + 1) (calls + more) k b p (omega arith) lost up ok)
    ]

wait_loop-never :
    {B : Type 0} (answers : ℕ → Bool) (fn : ℕ → Option B) (left n calls : ℕ)
    → ((m : ℕ) → m < n + left → IsLost answers fn m)
    → (wait_loop answers fn left n calls).0 ≡ not_served
unfolding wait_loop
wait_loop-never answers fn zero n calls lost = refl
wait_loop-never answers fn (suc left) n calls lost =
    let (more, e) = wait_loop-lost answers fn left n calls (lost n (omega arith)) in
    rw e (wait_loop-never answers fn left (n + 1) (calls + more) (λ m lt. lost m (omega arith)))

-- Every attempt answered and every call of `fn` rejected: each round calls it again.
wait_loop-rejects :
    {B : Type 0} (answers : ℕ → Bool) (fn : ℕ → Option B) (left n calls : ℕ)
    → ((m : ℕ) → m < n + left → answers m ≡ true)
    → ((m : ℕ) → m < n + left → fn m ≡ none)
    → wait_loop answers fn left n calls ≡ (not_served, calls + left)
unfolding wait_loop
wait_loop-rejects answers fn zero n calls up fails = ap (λ c. (not_served, c)) (omega arith)
wait_loop-rejects answers fn (suc left) n calls up fails =
    rw (wait_loop, up n (omega arith), fails n (omega arith))
      (wait_loop-rejects answers fn left (n + 1) (calls + 1) (λ m lt. up m (omega arith))
          (λ m lt. fails m (omega arith))
        ∙ ap (λ c. (not_served, c)) (omega arith))

-- withHttpModel returns what the first of its 40 attempts gives at which the server answers with 206 and the
-- callback does not reject.
pub with_http_model-first :
    {B : Type 0} (answers : ℕ → Bool) (fn : ℕ → Option B) (k : ℕ) (b : B)
    → k < 40
    → ((m : ℕ) → m < k → IsLost answers fn m)
    → answers k ≡ true
    → fn k ≡ some b
    → ((with_http_model answers fn).outcome ≡ returned b)
      × ((with_http_model answers fn).killed ≡ true)
unfolding with_http_model serve_model kill_server
with_http_model-first answers fn k b lt lost up ok =
    (wait_loop-first answers fn max_attempts 0 0 k b (omega arith) lt lost up ok, refl)

-- A callback that rejects is not told from a server that is not up yet: where the server answers each of
-- the 40 attempts with 206 and the callback always rejects, withHttpModel calls it 40 times, reports that the
-- server did not serve the model, and leaves the server killed.
pub with_http_model_masks :
    {B : Type 0} (answers : ℕ → Bool) (fn : ℕ → Option B)
    → ((m : ℕ) → m < 40 → answers m ≡ true)
    → ((m : ℕ) → m < 40 → fn m ≡ none)
    → with_http_model answers fn ≡ record { outcome = not_served; calls = 40; killed = true }
unfolding with_http_model serve_model kill_server
with_http_model_masks answers fn up fails =
    let e = wait_loop-rejects answers fn max_attempts 0 0 up fails in rw e refl
