-- ===== src/Resilience/Retries/Sleeps.antt =====
-- How long the retries sleep.
use saas_genai_starter.Common.{ℕ, ◌≤◌, max, Option, none, some, arith, All}
use saas_genai_starter.Llm.Errors.{LlmError, retry_after}
use saas_genai_starter.Resilience.Policy.{RetryPolicy}
use saas_genai_starter.Resilience.Policy.Delays.{Draws, delay_for-le}
use saas_genai_starter.Resilience.Breaker.{CircuitBreaker, check}
use saas_genai_starter.Resilience.Retries.{
  Outcome, ok, err, crash, Reply, World, called, count_failure, sleep, settle, proceed, round,
  call_with_retries,
}
use saas_genai_starter.Resilience.Retries.Loop.{world_of, retry_loop_inv}

module _ {ℓ} {A : Type ℓ} (fn : ℕ → Reply A) (uniform : ℕ → ℕ → ℕ → ℕ) (policy : RetryPolicy)
    (draws : (n : ℕ) → Draws (uniform n)) where
  abbrev Short : World → Type 0
  Short w = All (λ d. d ≤ max policy.max_delay 60000) w.sleeps

  settle-Short :
      (n : ℕ) (r : Outcome A) (w : World)
      → Short w
      → Short (world_of fn uniform policy (settle fn uniform policy n r w))
  unfolding settle count_failure sleep
  settle-Short n (ok a) w h = h
  settle-Short n (err e) w h =
      ground (arith, delay_for-le policy (uniform w.calls) n (retry_after e) (draws w.calls))
  settle-Short n (crash m) w h = h

  proceed-Short :
      (n : ℕ) (w : World) (c : Option LlmError × CircuitBreaker)
      → Short w
      → Short (world_of fn uniform policy (proceed fn uniform policy n w c))
  unfolding proceed called
  proceed-Short n w (some e, b) h = h
  proceed-Short n w (none, b) h =
      settle-Short n (fn w.calls).outcome (called b (fn w.calls).took w) h

  -- Every delay that a call with retries sleeps is at most the larger of `max_delay` and one
  -- minute, where `random.uniform` draws between its bounds and the delays logged before were.
  pub call_with_retries-Short :
      (w : World) → Short w → Short (call_with_retries fn uniform policy w).1
  unfolding call_with_retries round
  call_with_retries-Short w h =
      retry_loop_inv fn uniform policy Short (λ n v k. proceed-Short n v (check v.now v.breaker) k)
        policy.max_attempts 0 none w h
