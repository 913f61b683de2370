-- ===== src/Resilience/Breaker/Probe.antt =====
-- Which calls `check` lets through.
use saas_genai_starter.Common.{
  ℕ, ◌-◌, ◌≤◌, ◌≡◌, ◌⊎◌, ◌↔◌, true, false, none, some, List, [], ◌∷◌, arith,
}
use saas_genai_starter.Resilience.Breaker.{CircuitBreaker, check, open_error}

-- `check` passes exactly if the breaker is closed, or its recovery time is over and no probe is in
-- flight; and then it changes nothing but to mark the probe of an open breaker.
pub check_passes :
    (now : ℕ) (b : CircuitBreaker)
    → ((check now b).0 ≡ none) ↔ (
        (b.opened_at ≡ none)
        ⊎ ((t : ℕ) × (b.opened_at ≡ some t) × (b.recovery ≤ now - t) × (b.probe_in_flight ≡ false)))
unfolding check
check_passes now b = (λ h. ground arith, λ h. ground arith)

-- the breaker after checks at these times
pub checks : List ℕ → CircuitBreaker → CircuitBreaker
checks [] b = b
checks (t ∷ ts) b = checks ts (check t b).1

refused :
    (t later : ℕ) (ts : List ℕ) (b : CircuitBreaker)
    → b.opened_at ≡ some t
    → b.probe_in_flight ≡ true
    → (check later (checks ts b)).0 ≡ some open_error
unfolding checks check
refused t later [] b o p = ground arith
refused t later (now ∷ ts) b o p = refused t later ts (check now b).1 (ground arith) (ground arith)

check_marks :
    (now t : ℕ) (b : CircuitBreaker)
    → b.opened_at ≡ some t
    → (check now b).0 ≡ none
    → ((check now b).1.opened_at ≡ some t) × ((check now b).1.probe_in_flight ≡ true)
unfolding check
check_marks now t b o passed = ground arith

-- Once an open breaker has let a probe through, it refuses every further check, at whatever times,
-- until the probe's outcome is recorded.
pub probe_exclusive :
    (now t later : ℕ) (ts : List ℕ) (b : CircuitBreaker)
    → b.opened_at ≡ some t
    → (check now b).0 ≡ none
    → (check later (checks ts (check now b).1)).0 ≡ some open_error
probe_exclusive now t later ts b o passed =
    let m = check_marks now t b o passed in refused t later ts (check now b).1 m.0 m.1
