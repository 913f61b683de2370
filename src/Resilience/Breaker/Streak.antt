-- ===== src/Resilience/Breaker/Streak.antt =====
-- When the breaker is open, told from the history of its calls alone.
use saas_genai_starter.Common.{
  ℕ, ◌+◌, ◌<◌, ◌≡◌, refl, Option, none, some, List, [], ◌∷◌, arith, leb, if◌then◌else◌,
}
use saas_genai_starter.Resilience.Breaker.{
  CircuitBreaker, new_breaker, check, record_success, record_failure,
}

-- The calls that the breaker sees, from any number of tasks, with the clock's reading.
pub data Event : Type 0 where
  checked failure : ℕ → Event
  success : Event

pub apply : Event → CircuitBreaker → CircuitBreaker
apply (checked now) b = (check now b).1
apply (failure now) b = record_failure now b
apply success b = record_success b

pub run : List Event → CircuitBreaker → CircuitBreaker
run [] b = b
run (e ∷ es) b = run es (apply e b)

-- The failures since the last success, beginning at `n`.
abbrev pub streak : ℕ → List Event → ℕ
streak n [] = n
streak n (checked now ∷ es) = streak n es
streak n (failure now ∷ es) = streak (n + 1) es
streak n (success ∷ es) = streak 0 es

-- The time of the last failure, beginning at `o`.
abbrev pub last_failure : Option ℕ → List Event → Option ℕ
last_failure o [] = o
last_failure o (checked now ∷ es) = last_failure o es
last_failure o (failure now ∷ es) = last_failure (some now) es
last_failure o (success ∷ es) = last_failure o es

-- The breaker is open exactly from `threshold` failures on, since the last of them.
abbrev Tells : ℕ → ℕ → Option ℕ → CircuitBreaker → Type 0
Tells threshold n o b =
    (b.consecutive_failures ≡ n)
    × (b.opened_at ≡ (if leb threshold n then o else none))
    × (b.failure_threshold ≡ threshold)

apply-checked-Tells :
    (now k n : ℕ) (o : Option ℕ) (b : CircuitBreaker)
    → Tells k n o b
    → Tells k n o (apply (checked now) b)
unfolding apply check
apply-checked-Tells now k n o b h = ground arith

apply_failure-Tells :
    (now k n : ℕ) (o : Option ℕ) (b : CircuitBreaker)
    → Tells k n o b
    → Tells k (n + 1) (some now) (apply (failure now) b)
unfolding apply record_failure
apply_failure-Tells now k n o b h = ground arith

apply_success-Tells :
    (k n : ℕ) (o : Option ℕ) (b : CircuitBreaker)
    → 0 < k
    → Tells k n o b
    → Tells k 0 o (apply success b)
unfolding apply record_success
apply_success-Tells k n o b pos h = ground arith

run-Tells :
    (es : List Event) (k n : ℕ) (o : Option ℕ) (b : CircuitBreaker)
    → 0 < k
    → Tells k n o b
    → Tells k (streak n es) (last_failure o es) (run es b)
unfolding run
run-Tells [] k n o b pos h = h
run-Tells (checked now ∷ es) k n o b pos h =
    run-Tells es k n o (apply (checked now) b) pos (apply-checked-Tells now k n o b h)
run-Tells (failure now ∷ es) k n o b pos h =
    run-Tells es k (n + 1) (some now) (apply (failure now) b) pos
      (apply_failure-Tells now k n o b h)
run-Tells (success ∷ es) k n o b pos h =
    run-Tells es k 0 o (apply success b) pos (apply_success-Tells k n o b pos h)

-- A breaker with a positive threshold that sees any sequence of checks, failures and successes
-- counts the failures since the last success, and is open, since the last failure, exactly if
-- these have reached the threshold.
pub run-new_breaker :
    (threshold recovery : ℕ) (es : List Event)
    → 0 < threshold
    → let b = run es (new_breaker threshold recovery) in
      (b.consecutive_failures ≡ streak 0 es)
      × (b.opened_at ≡ (if leb threshold (streak 0 es) then last_failure none es else none))
unfolding new_breaker
run-new_breaker threshold recovery es pos =
    let h =
      run-Tells es threshold 0 none (new_breaker threshold recovery) pos
        (refl, ground arith, refl) in
    (h.0, h.1)
