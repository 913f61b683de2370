-- ===== src/Resilience/Retries/Bounds.antt =====
-- How often the provider is called, how long the retries wait, and when they fail at once.
use saas_genai_starter.Common.{ℕ, zero, suc, ◌+◌, ◌≤◌, ◌≡◌, refl, Option, none, some, arith}
use saas_genai_starter.Llm.Errors.{LlmError}
use saas_genai_starter.Resilience.Policy.{RetryPolicy}
use saas_genai_starter.Resilience.Breaker.{CircuitBreaker, check}
use saas_genai_starter.Resilience.Retries.{
  Outcome, ok, err, crash, Reply, World, Round, finish, again, called, count_failure, sleep, settle,
  proceed, resume, round, retry_loop, call_with_retries,
}

-- `random.uniform` draws between its bounds.
abbrev pub Draws : (ℕ → ℕ → ℕ → ℕ) → Type 0
Draws uniform = (n lo hi : ℕ) → lo ≤ hi → (lo ≤ uniform n lo hi) × (uniform n lo hi ≤ hi)

module _ {ℓ} {A : Type ℓ} (fn : ℕ → Reply A) (uniform : ℕ → ℕ → ℕ → ℕ) (policy : RetryPolicy) where
  abbrev world_of : Round A → World
  world_of (finish r w) = w
  world_of (again e w) = w

  settle-calls :
      (n : ℕ) (r : Outcome A) (w : World)
      → (world_of (settle fn uniform policy n r w)).calls ≡ w.calls
  unfolding settle count_failure sleep
  settle-calls n (ok a) w = refl
  settle-calls n (err e) w = ground arith
  settle-calls n (crash m) w = refl

  proceed-calls :
      (n : ℕ) (w : World) (c : Option LlmError × CircuitBreaker)
      → (world_of (proceed fn uniform policy n w c)).calls ≤ w.calls + 1
  unfolding proceed called
  proceed-calls n w (some e, b) = omega arith
  proceed-calls n w (none, b) =
      omega (arith, settle-calls n (fn w.calls).outcome (called b (fn w.calls).took w))

  resume-calls :
      (bound : ℕ) (next : LlmError → World → Outcome A × World) (r : Round A)
      → ((e : LlmError) (w : World) → (next e w).1.calls ≤ w.calls + bound)
      → (resume fn uniform policy next r).1.calls ≤ (world_of r).calls + bound
  unfolding resume
  resume-calls bound next (finish r w) h = omega arith
  resume-calls bound next (again e w) h = h e w

  retry_loop-calls :
      (left n : ℕ) (last : Option LlmError) (w : World)
      → (retry_loop fn uniform policy left n last w).1.calls ≤ w.calls + left
  unfolding retry_loop round
  retry_loop-calls zero n last w = omega arith
  retry_loop-calls (suc left) n last w = omega (
    arith,
    proceed-calls n w (check w.now w.breaker),
    resume-calls left (λ e w'. retry_loop fn uniform policy left (suc n) (some e) w')
        (proceed fn uniform policy n w (check w.now w.breaker))
        (λ e w'. retry_loop-calls left (suc n) (some e) w'),
  )

  -- Whatever the provider answers, one call with retries calls it at most `max_attempts` times.
  pub call_with_retries-calls :
      (w : World) → (call_with_retries fn uniform policy w).1.calls ≤ w.calls + policy.max_attempts
  unfolding call_with_retries
  call_with_retries-calls w = retry_loop-calls policy.max_attempts 0 none w
