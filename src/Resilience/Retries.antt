-- ===== src/Resilience/Retries.antt =====
-- `call_with_retries`. What the wrapped call does, and how long it takes, is the `n`-th reply of a
-- sequence; the world holds the shared breaker, the clock and a log of the delays slept.
use saas_genai_starter.Common.{
  ℕ, zero, suc, ◌+◌, Bool, true, false, Option, none, some, List, [], ◌∷◌, String, if◌then◌else◌,
}
use saas_genai_starter.Llm.Errors.{LlmError, retryable, is_rate_limited, retry_after}
use saas_genai_starter.Resilience.Policy.{RetryPolicy, delay_for}
use saas_genai_starter.Resilience.Breaker.{CircuitBreaker, check, record_success, record_failure}
pub mod Bounds
pub mod Loop
pub mod Sleeps
pub mod Wedged
pub mod Success

-- How an awaited call ends: `crash` is any exception that is no `LLMError`, or a cancellation.
pub data Outcome {ℓ} (A : Type ℓ) : Type ℓ where
  ok : A → Outcome A
  err : LlmError → Outcome A
  crash : String → Outcome A

pub record Reply {ℓ} (A : Type ℓ) : Type ℓ where
  pub outcome : Outcome A
  pub took : ℕ

pub record World : Type 0 where
  pub breaker : CircuitBreaker
  pub now : ℕ
  pub calls : ℕ
  pub sleeps : List ℕ

-- One round of the `for` loop returns, raises, or goes on after an error.
pub data Round {ℓ} (A : Type ℓ) : Type ℓ where
  finish : Outcome A → World → Round A
  again : LlmError → World → Round A

-- after `breaker.check()` has passed and `fn()` has been awaited
unfoldable pub called : CircuitBreaker → ℕ → World → World
called b took w = record w { breaker = b; now = w.now + took; calls = w.calls + 1 }

-- throttling does not count against the breaker
unfoldable pub count_failure : LlmError → World → World
count_failure e w = record w {
  breaker = if is_rate_limited e then w.breaker else record_failure w.now w.breaker;
}

-- `await asyncio.sleep(delay)`
unfoldable pub sleep : ℕ → World → World
sleep delay w = record w { now = w.now + delay; sleeps = delay ∷ w.sleeps }

-- `raise last_error`, behind its assertion
pub exhausted {ℓ} : {A : Type ℓ} → Option LlmError → Outcome A
exhausted none = crash "AssertionError"
exhausted (some e) = err e

-- `uniform n` is the draw of `random.uniform` before the `n`-th call.
module _ {ℓ} {A : Type ℓ} (fn : ℕ → Reply A) (uniform : ℕ → ℕ → ℕ → ℕ) (policy : RetryPolicy) where
  pub settle : ℕ → Outcome A → World → Round A
  unfolding count_failure sleep
  settle attempt (ok a) w = finish (ok a) (record w { breaker = record_success w.breaker })
  settle attempt (crash m) w = finish (crash m) w
  settle attempt (err e) w =
      let w' = count_failure e w in
      if retryable e
      then again e (sleep (delay_for policy (uniform w.calls) attempt (retry_after e)) w')
      else finish (err e) w'

  -- what `check` said, and the breaker that it left
  pub proceed : ℕ → World → Option LlmError × CircuitBreaker → Round A
  unfolding settle called
  proceed attempt w (some e, b) = finish (err e) (record w { breaker = b })
  proceed attempt w (none, b) = settle attempt (fn w.calls).outcome (called b (fn w.calls).took w)

  pub round : ℕ → World → Round A
  unfolding proceed
  round attempt w = proceed attempt w (check w.now w.breaker)

  pub resume : (LlmError → World → Outcome A × World) → Round A → Outcome A × World
  resume next (finish r w) = (r, w)
  resume next (again e w) = next e w

  -- the rounds left, the number of this attempt, and `last_error`
  pub retry_loop : ℕ → ℕ → Option LlmError → World → Outcome A × World
  unfolding exhausted resume
  retry_loop zero attempt last w = (exhausted last, w)
  retry_loop (suc left) attempt last w =
      resume (λ e w'. retry_loop left (suc attempt) (some e) w') (round attempt w)

  pub call_with_retries : World → Outcome A × World
  unfolding retry_loop
  call_with_retries w = retry_loop policy.max_attempts 0 none w
