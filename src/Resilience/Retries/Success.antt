-- ===== src/Resilience/Retries/Success.antt =====
-- How a call with retries ends while the breaker stays closed.
use saas_genai_starter.Common.{
  ℕ, zero, suc, ◌+◌, ◌≤◌, ◌<◌, ◌≡◌, refl, sym, ap, subst, ◌∙◌, true, Option, none, some, arith,
  length,
}
use saas_genai_starter.Llm.Errors.{LlmError, retryable, retry_after}
use saas_genai_starter.Resilience.Policy.{RetryPolicy, delay_for}
use saas_genai_starter.Resilience.Breaker.{CircuitBreaker, check, record_success, record_failure}
use saas_genai_starter.Resilience.Retries.{
  Outcome, ok, err, Reply, World, again, called, count_failure, sleep, settle, proceed, resume,
  round, retry_loop, exhausted, call_with_retries,
}

module _ {ℓ} {A : Type ℓ} (fn : ℕ → Reply A) (uniform : ℕ → ℕ → ℕ → ℕ) (policy : RetryPolicy) where
  -- the world after a round that ends in a retryable error
  failed : ℕ → LlmError → World → World
  failed n e w =
      let w' = called w.breaker (fn w.calls).took w in
      sleep (delay_for policy (uniform w'.calls) n (retry_after e)) (count_failure e w')

  check_closed : (now : ℕ) (b : CircuitBreaker) → b.opened_at ≡ none → check now b ≡ (none, b)
  unfolding check
  check_closed now b o = ground arith

  round-failed :
      (n : ℕ) (e : LlmError) (w : World)
      → w.breaker.opened_at ≡ none
      → (fn w.calls).outcome ≡ err e
      → retryable e ≡ true
      → round fn uniform policy n w ≡ again e (failed n e w)
  unfolding round proceed settle failed called count_failure
  round-failed n e w o r t = rw (check_closed w.now w.breaker o, r, t)

  failed_keeps :
      (n : ℕ) (e : LlmError) (w : World)
      → w.breaker.opened_at ≡ none
      → w.breaker.consecutive_failures + 1 < w.breaker.failure_threshold
      → let v = failed n e w in
        (v.breaker.opened_at ≡ none)
        × (v.breaker.consecutive_failures ≤ w.breaker.consecutive_failures + 1)
  unfolding failed sleep count_failure called record_failure
  failed_keeps n e w o room = ground arith

  failed_counts :
      (n : ℕ) (e : LlmError) (w : World)
      → let v = failed n e w in
        (v.calls ≡ w.calls + 1)
        × (length v.sleeps ≡ length w.sleeps + 1)
        × (v.breaker.failure_threshold ≡ w.breaker.failure_threshold)
  unfolding failed sleep count_failure called record_failure
  failed_counts n e w = ground arith

  -- The calls numbered from `i` up to `j` end in retryable errors.
  abbrev pub Fail : ℕ → ℕ → Type ℓ
  Fail i j =
      (m : ℕ) → i ≤ m → m < j → (e : LlmError) × ((fn m).outcome ≡ err e) × (retryable e ≡ true)

  -- The world after a round that returns.
  returned : World → World
  returned w =
      let w' = called w.breaker (fn w.calls).took w in
      record w' { breaker = record_success w'.breaker }

  returned_lem :
      (w : World)
      → let v = returned w in
        (v.calls ≡ w.calls + 1)
        × (v.sleeps ≡ w.sleeps)
        × (v.breaker.opened_at ≡ none)
        × (v.breaker.consecutive_failures ≡ 0)
  unfolding returned called record_success
  returned_lem w = (refl, refl, refl, refl)

  loop-returned :
      (left n : ℕ) (last : Option LlmError) (w : World) (a : A)
      → w.breaker.opened_at ≡ none
      → (fn w.calls).outcome ≡ ok a
      → retry_loop fn uniform policy (suc left) n last w ≡ (ok a, returned w)
  unfolding retry_loop round proceed settle resume returned called
  loop-returned left n last w a o r = rw (check_closed w.now w.breaker o, r)

  loop-failed :
      (left n : ℕ) (last : Option LlmError) (e : LlmError) (w : World)
      → w.breaker.opened_at ≡ none
      → (fn w.calls).outcome ≡ err e
      → retryable e ≡ true
      → retry_loop fn uniform policy (suc left) n last w
        ≡ retry_loop fn uniform policy left (suc n) (some e) (failed n e w)
  unfolding retry_loop resume
  loop-failed left n last e w o r t = rw (round-failed n e w o r t)

  -- What a success at call `j`, after `k` failures, leaves.
  abbrev Succeeds : ℕ → ℕ → ℕ → A → Outcome A × World → Type ℓ
  Succeeds j k slept a (r, v) =
      (r ≡ ok a)
      × (v.calls ≡ j + 1)
      × (length v.sleeps ≡ slept + k)
      × (v.breaker.opened_at ≡ none)
      × (v.breaker.consecutive_failures ≡ 0)

  loop_success :
      (k left n j : ℕ) (last : Option LlmError) (w : World) (a : A)
      → w.breaker.opened_at ≡ none
      → w.breaker.consecutive_failures + k < w.breaker.failure_threshold
      → k < left
      → j ≡ w.calls + k
      → Fail w.calls j
      → (fn j).outcome ≡ ok a
      → Succeeds j k (length w.sleeps) a (retry_loop fn uniform policy left n last w)
  loop_success k zero n j last w a o room lt at fails good = elim lt [ ]
  loop_success zero (suc left) n j last w a o room lt at fails good =
      let here : j ≡ w.calls = omega arith in
      let v = returned_lem w in
      rw (loop-returned left n last w a o (subst (λ i. (fn i).outcome ≡ ok a) here good))
        (refl, omega (arith, v.0), omega (arith, ap length v.1), v.2, v.3)
  loop_success (suc k) (suc left) n j last w a o room lt at fails good =
      let f = fails w.calls (omega arith) (omega arith) in
      let e = f.0 in
      let c = failed_counts n e w in
      let s = failed_keeps n e w o (omega arith) in
      let ih =
        loop_success k left (suc n) j (some e) (failed n e w) a s.0 (omega arith) (omega arith)
          (omega arith) (λ m lo hi. fails m (omega arith) hi) good in
      rw (loop-failed left n last e w o f.1 f.2) (ih.0, ih.1, omega (arith, ih.2), ih.3, ih.4)

  -- Where the breaker is closed and `k` more failures do not open it, and the first `k` calls end in
  -- retryable errors and the next returns `a`, with `k` below `max_attempts`: the call with retries
  -- returns `a` after exactly `k + 1` provider calls and `k` sleeps, with the breaker reset.
  pub call_with_retries-succeeds :
      (k : ℕ) (w : World) (a : A)
      → w.breaker.opened_at ≡ none
      → w.breaker.consecutive_failures + k < w.breaker.failure_threshold
      → k < policy.max_attempts
      → Fail w.calls (w.calls + k)
      → (fn (w.calls + k)).outcome ≡ ok a
      → let (r, v) = call_with_retries fn uniform policy w in
        (r ≡ ok a)
        × (v.calls ≡ w.calls + k + 1)
        × (length v.sleeps ≡ length w.sleeps + k)
        × (v.breaker.opened_at ≡ none)
        × (v.breaker.consecutive_failures ≡ 0)
  unfolding call_with_retries
  call_with_retries-succeeds k w a o room lt fails good =
      loop_success k policy.max_attempts 0 (w.calls + k) none w a o room lt refl fails good

  abbrev Exhausts : ℕ → ℕ → Outcome A × World → Type ℓ
  Exhausts last slept (r, v) =
      (r ≡ (fn last).outcome) × (v.calls ≡ last + 1) × (length v.sleeps ≡ slept)

  loop_exhausted :
      (left n j : ℕ) (last : Option LlmError) (w : World)
      → w.breaker.opened_at ≡ none
      → w.breaker.consecutive_failures + left < w.breaker.failure_threshold
      → j ≡ w.calls + left
      → Fail w.calls (j + 1)
      → Exhausts j (length w.sleeps + left + 1) (retry_loop fn uniform policy (suc left) n last w)
  loop_exhausted zero n j last w o room at fails =
      let here : w.calls ≡ j = omega arith in
      let f = fails w.calls (omega arith) (omega arith) in
      let c = failed_counts n f.0 w in
      rw (loop-failed zero n last f.0 w o f.1 f.2) (
        unfold retry_loop exhausted in
        (sym f.1 ∙ ap (λ i. (fn i).outcome) here, omega (arith, c.0), omega (arith, c.1)))
  loop_exhausted (suc left) n j last w o room at fails =
      let f = fails w.calls (omega arith) (omega arith) in
      let c = failed_counts n f.0 w in
      let s = failed_keeps n f.0 w o (omega arith) in
      let ih =
        loop_exhausted left (suc n) j (some f.0) (failed n f.0 w) s.0 (omega arith) (omega arith)
          (λ m lo hi. fails m (omega arith) hi) in
      rw (loop-failed (suc left) n last f.0 w o f.1 f.2) (ih.0, ih.1, omega (arith, ih.2))

  -- Where the breaker is closed and stays so, and all of the `k + 1` attempts end in retryable
  -- errors, the error of the last one is raised, after `k + 1` calls; and the loop has slept `k + 1`
  -- times, once more after its last attempt.
  pub call_with_retries-exhausted :
      (k : ℕ) (w : World)
      → policy.max_attempts ≡ suc k
      → w.breaker.opened_at ≡ none
      → w.breaker.consecutive_failures + k < w.breaker.failure_threshold
      → Fail w.calls (w.calls + k + 1)
      → let (r, v) = call_with_retries fn uniform policy w in
        (r ≡ (fn (w.calls + k)).outcome)
        × (v.calls ≡ w.calls + k + 1)
        × (length v.sleeps ≡ length w.sleeps + k + 1)
  unfolding call_with_retries
  call_with_retries-exhausted k w most o room fails =
      subst
        (λ m.
          Exhausts (w.calls + k) (length w.sleeps + k + 1)
            (retry_loop fn uniform policy m 0 none w))
        (sym most) (loop_exhausted k 0 (w.calls + k) none w o room refl fails)
