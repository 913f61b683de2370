-- ===== src/Resilience/Retries/Wedged.antt =====
-- A probe that ends in throttling, or in an exception that is no `LLMError`, leaves
-- `probe_in_flight` set: from then on `check` raises at any time, and the provider is not called.
use saas_genai_starter.Common.{
  ℕ, zero, suc, ◌+◌, ◌≤◌, ◌<◌, ◌≡◌, refl, true, false, Option, none, some, String, arith, ◌∙◌,
}
use saas_genai_starter.Llm.Errors.{LlmError, rate_limited}
use saas_genai_starter.Resilience.Policy.{RetryPolicy, delay_for}
use saas_genai_starter.Resilience.Breaker.{CircuitBreaker, check, open_error}
use saas_genai_starter.Resilience.Retries.{
  err, Reply, World, called, count_failure, sleep, settle, proceed, resume, round, retry_loop,
  call_with_retries,
}

-- Open, with a probe that nobody awaits any more.
abbrev pub IsWedged : CircuitBreaker → Type 0
IsWedged b = (t : ℕ) × (b.opened_at ≡ some t) × (b.probe_in_flight ≡ true)

pub check-IsWedged :
    (now : ℕ) (b : CircuitBreaker) → IsWedged b → check now b ≡ (some open_error, b)
unfolding check
check-IsWedged now b (t, o, p) = ground arith

-- An open breaker admits the probe once the recovery time is over.
pub check_probe :
    (now t : ℕ) (b : CircuitBreaker)
    → b.opened_at ≡ some t
    → b.probe_in_flight ≡ false
    → t + b.recovery ≤ now
    → check now b ≡ (none, record b { probe_in_flight = true })
unfolding check
check_probe now t b o p late = ground arith

module _ {ℓ} {A : Type ℓ} (fn : ℕ → Reply A) (uniform : ℕ → ℕ → ℕ → ℕ) (policy : RetryPolicy) where
  retry_loop-IsWedged :
      (left n : ℕ) (last : Option LlmError) (w : World)
      → 0 < left
      → IsWedged w.breaker
      → retry_loop fn uniform policy left n last w ≡ (err open_error, w)
  unfolding retry_loop round proceed resume
  retry_loop-IsWedged zero n last w pos h = elim pos [ ]
  retry_loop-IsWedged (suc left) n last w pos h = rw (check-IsWedged w.now w.breaker h)

  -- While the breaker is wedged, every call with retries (of at least one attempt) raises
  -- `CircuitOpen` and leaves the world as it was: no provider call, and no way out.
  pub call_with_retries-IsWedged :
      (w : World)
      → 0 < policy.max_attempts
      → IsWedged w.breaker
      → call_with_retries fn uniform policy w ≡ (err open_error, w)
  unfolding call_with_retries
  call_with_retries-IsWedged w pos h = retry_loop-IsWedged policy.max_attempts 0 none w pos h

  -- the world after a probe that was throttled
  throttled : ℕ → Option ℕ → World → World
  throttled n hint w =
      let b = record w.breaker { probe_in_flight = true } in
      let w' = called b (fn w.calls).took w in sleep (delay_for policy (uniform w'.calls) n hint) w'

  probe_throttled :
      (t left n : ℕ) (m : String) (hint : Option ℕ) (last : Option LlmError) (w : World)
      → w.breaker.opened_at ≡ some t
      → w.breaker.probe_in_flight ≡ false
      → t + w.breaker.recovery ≤ w.now
      → (fn w.calls).outcome ≡ err (rate_limited m hint)
      → retry_loop fn uniform policy (suc left) n last w
        ≡ retry_loop fn uniform policy left
            (suc n)
            (some (rate_limited m hint))
            (throttled n hint w)
  unfolding retry_loop round proceed resume settle count_failure throttled called sleep
  probe_throttled t left n m hint last w o p late e = rw (check_probe w.now t w.breaker o p late, e)

  throttled-IsWedged :
      (n t : ℕ) (hint : Option ℕ) (w : World)
      → w.breaker.opened_at ≡ some t
      → IsWedged (throttled n hint w).breaker
  unfolding throttled called sleep
  throttled-IsWedged n t hint w o = (t, o, refl)

  loop_throttled :
      (t left : ℕ) (m : String) (hint : Option ℕ) (w : World)
      → 1 < left
      → w.breaker.opened_at ≡ some t
      → w.breaker.probe_in_flight ≡ false
      → t + w.breaker.recovery ≤ w.now
      → (fn w.calls).outcome ≡ err (rate_limited m hint)
      → retry_loop fn uniform policy left 0 none w ≡ (err open_error, throttled 0 hint w)
  loop_throttled t zero m hint w pos o p late e = elim pos [ ]
  loop_throttled t (suc left) m hint w pos o p late e =
      probe_throttled t left 0 m hint none w o p late e
      ∙ retry_loop-IsWedged left 1 (some (rate_limited m hint)) (throttled 0 hint w) (omega arith)
          (throttled-IsWedged 0 t hint w o)

  -- Where the breaker is open, its recovery time is over, no probe is in flight and at least two
  -- attempts are allowed, a probe that the provider throttles is the only call that is made: the
  -- retry raises `CircuitOpen`, and the breaker is left wedged.
  pub probe_throttled-IsWedged :
      (t : ℕ) (m : String) (hint : Option ℕ) (w : World)
      → 1 < policy.max_attempts
      → w.breaker.opened_at ≡ some t
      → w.breaker.probe_in_flight ≡ false
      → t + w.breaker.recovery ≤ w.now
      → (fn w.calls).outcome ≡ err (rate_limited m hint)
      → let (r, w') = call_with_retries fn uniform policy w in
        (r ≡ err open_error) × (w'.calls ≡ w.calls + 1) × IsWedged w'.breaker
  unfolding call_with_retries
  probe_throttled-IsWedged t m hint w pos o p late e =
      rw (loop_throttled t policy.max_attempts m hint w pos o p late e)
        (refl, unfold throttled called sleep in refl, throttled-IsWedged 0 t hint w o)
