-- ===== src/Resilience/Breaker.antt =====
-- `CircuitBreaker`. The clock's reading is an argument of each call.
pub mod Streak
pub mod Probe
use saas_genai_starter.Common.{
  ℕ, ◌+◌, ◌-◌, Bool, true, false, ◌||◌, Option, none, some, ltb, leb, if◌then◌else◌, is_some,
}
use saas_genai_starter.Llm.Errors.{LlmError, circuit_open}

pub record CircuitBreaker : Type 0 where
  pub failure_threshold : ℕ
  pub recovery : ℕ
  pub consecutive_failures : ℕ
  pub opened_at : Option ℕ
  pub probe_in_flight : Bool

pub new_breaker : ℕ → ℕ → CircuitBreaker
new_breaker threshold recovery = record {
  failure_threshold = threshold;
  recovery = recovery;
  consecutive_failures = 0;
  opened_at = none;
  probe_in_flight = false;
}

abbrev pub open_error : LlmError
open_error = circuit_open "LLM provider circuit is open"

check_open : ℕ → ℕ → CircuitBreaker → Option LlmError × CircuitBreaker
check_open now opened b =
    if ltb (now - opened) b.recovery || b.probe_in_flight
    then (some open_error, b)
    else (none, record b { probe_in_flight = true })

-- `check` raises the error that it returns, if any.
unfoldable pub check : ℕ → CircuitBreaker → Option LlmError × CircuitBreaker
unfolding check_open
check now b = elim b.opened_at [ none ↦ (none, b) | some opened ↦ check_open now opened b ]

unfoldable pub record_success : CircuitBreaker → CircuitBreaker
record_success b = record b { consecutive_failures = 0; opened_at = none; probe_in_flight = false }

unfoldable pub record_failure : ℕ → CircuitBreaker → CircuitBreaker
record_failure now b =
    let failures = b.consecutive_failures + 1 in
    record b {
      probe_in_flight = false;
      consecutive_failures = failures;
      opened_at = if leb b.failure_threshold failures then some now else b.opened_at;
    }
