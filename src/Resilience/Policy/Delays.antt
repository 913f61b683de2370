-- ===== src/Resilience/Policy/Delays.antt =====
-- The range of `RetryPolicy.delay_for`.
use saas_genai_starter.Common.{ℕ, ◌*◌, ◌^◌, ◌/◌, ◌≤◌, min, max, Option, none, some, arith}
use saas_genai_starter.Resilience.Policy.{RetryPolicy, exponential, delay_for}

-- `random.uniform` draws between its bounds.
abbrev pub Draws : (ℕ → ℕ → ℕ) → Type 0
Draws uniform = (lo hi : ℕ) → lo ≤ hi → (lo ≤ uniform lo hi) × (uniform lo hi ≤ hi)

exponential-le : (p : RetryPolicy) (n : ℕ) → exponential p n ≤ p.max_delay
unfolding exponential
exponential-le p n = omega arith

-- With no hint of the server, the delay lies between half the capped exponential and all of it,
-- and so is at most `max_delay`.
pub delay_for_jitter :
    (p : RetryPolicy) (uniform : ℕ → ℕ → ℕ) (n : ℕ)
    → Draws uniform
    → let e = min (p.base_delay * 2 ^ n) p.max_delay in
      (e / 2 ≤ delay_for p uniform n none)
      × (delay_for p uniform n none ≤ e)
      × (delay_for p uniform n none ≤ p.max_delay)
unfolding delay_for
delay_for_jitter p uniform n draws =
    let e : ℕ = min (p.base_delay * 2 ^ n) p.max_delay in
    let d = draws (e / 2) e (omega arith) in (d.0, d.1, omega (arith, d.1))

-- Every delay is at most the larger of `max_delay` and one minute.
pub delay_for-le :
    (p : RetryPolicy) (uniform : ℕ → ℕ → ℕ) (n : ℕ) (hint : Option ℕ)
    → Draws uniform
    → delay_for p uniform n hint ≤ max p.max_delay 60000
unfolding delay_for
delay_for-le p uniform n (some t) draws = omega arith
delay_for-le p uniform n none draws =
    let e : ℕ = exponential p n in omega (arith, draws (e / 2) e (omega arith), exponential-le p n)
