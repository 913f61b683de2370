-- ===== src/Resilience/Tests.antt =====
-- The theorems on retries, the breaker and streams, at concrete providers.
use saas_genai_starter.Common.{
  ℕ, zero, suc, ◌+◌, ◌≤◌, ◌<◌, ◌≡◌, refl, true, false, none, some, [], ◌∷◌, length, arith,
}
use saas_genai_starter.Llm.Errors.{LlmError, provider_unavailable, rate_limited, retryable}
use saas_genai_starter.Llm.Types.{text_delta}
use saas_genai_starter.Resilience.Policy.{default_policy}
use saas_genai_starter.Resilience.Breaker.{CircuitBreaker, new_breaker, open_error}
use saas_genai_starter.Resilience.Breaker.Streak.{checked, failure, success, run, run-new_breaker}
use saas_genai_starter.Resilience.Retries.{ok, err, Reply, World, call_with_retries}
use saas_genai_starter.Resilience.Retries.Wedged.{IsWedged, probe_throttled-IsWedged}
use saas_genai_starter.Resilience.Retries.Success.{
  call_with_retries-succeeds, call_with_retries-exhausted,
}
use saas_genai_starter.Resilience.Streams.{Stream, fails, stream}
use saas_genai_starter.Resilience.Streams.Replay.{Once, stream-Once}

-- the first call fails, and every later one returns 7
abbrev flaky : ℕ → Reply ℕ
flaky zero = record { outcome = err (provider_unavailable "503"); took = 100 }
flaky (suc n) = record { outcome = ok 7; took = 100 }

abbrev down : ℕ → Reply ℕ
down n = record { outcome = err (provider_unavailable "503"); took = 100 }

abbrev throttling : ℕ → Reply ℕ
throttling n = record { outcome = err (rate_limited "429" none); took = 100 }

abbrev lowest : ℕ → ℕ → ℕ → ℕ
lowest n lo hi = lo

abbrev lower_bound : ℕ → ℕ → ℕ
lower_bound lo hi = lo

lowest_draws : (lo hi : ℕ) → lo ≤ hi → (lo ≤ lower_bound lo hi) × (lower_bound lo hi ≤ hi)
lowest_draws lo hi h = (omega arith, h)

abbrev fresh : CircuitBreaker
fresh = record {
  failure_threshold = 5;
  recovery = 30000;
  consecutive_failures = 0;
  opened_at = none;
  probe_in_flight = false;
}

abbrev opened : CircuitBreaker
opened = record fresh { consecutive_failures = 5; opened_at = some 1000 }

abbrev probing : CircuitBreaker
probing = record opened { probe_in_flight = true }

abbrev world : CircuitBreaker → World
world b = record { breaker = b; now = 40000; calls = 0; sleeps = [] }

probe_throttled-IsWedged_example :
    let (r, w) = call_with_retries throttling lowest default_policy (world opened) in
    (r ≡ err open_error) × (w.calls ≡ 0 + 1) × IsWedged w.breaker
probe_throttled-IsWedged_example =
    probe_throttled-IsWedged throttling lowest default_policy 1000 "429" none (world opened)
      (omega arith) refl refl (omega arith) refl

flaky_fails :
    (m : ℕ) → 0 ≤ m → m < 1 → (e : LlmError) × ((flaky m).outcome ≡ err e) × (retryable e ≡ true)
flaky_fails zero lo hi = (provider_unavailable "503", refl, refl)
flaky_fails (suc m) lo hi = absurd (omega arith)

call_with_retries-succeeds_example :
    let (r, v) = call_with_retries flaky lowest default_policy (world fresh) in
    (r ≡ ok 7)
    × (v.calls ≡ 0 + 1 + 1)
    × (length v.sleeps ≡ 0 + 1)
    × (v.breaker.opened_at ≡ none)
    × (v.breaker.consecutive_failures ≡ 0)
call_with_retries-succeeds_example =
    call_with_retries-succeeds flaky lowest default_policy 1 (world fresh) 7 refl (omega arith)
      (omega arith) flaky_fails refl

call_with_retries-exhausted_example :
    let (r, v) = call_with_retries down lowest default_policy (world fresh) in
    (r ≡ err (provider_unavailable "503")) × (v.calls ≡ 0 + 3 + 1) × (length v.sleeps ≡ 0 + 3 + 1)
call_with_retries-exhausted_example =
    call_with_retries-exhausted down lowest default_policy 3 (world fresh) refl refl (omega arith)
      (λ m lo hi. (provider_unavailable "503", refl, refl))

run-new_breaker_example :
    let b =
      run (failure 10 ∷ success ∷ failure 20 ∷ checked 25 ∷ failure 30 ∷ []) (new_breaker 2 60) in
    (b.consecutive_failures ≡ 2) × (b.opened_at ≡ some 30)
run-new_breaker_example =
    run-new_breaker 2 60 (failure 10 ∷ success ∷ failure 20 ∷ checked 25 ∷ failure 30 ∷ [])
      (omega arith)

-- the first stream fails before its first event, the second breaks off after one
abbrev broken : ℕ → Stream
broken zero = record { events = []; ending = fails (provider_unavailable "503"); took = 50 }
broken (suc n) = record {
  events = text_delta "Hel" ∷ [];
  ending = fails (provider_unavailable "reset");
  took = 50;
}

stream-Once_example :
    Once broken lowest default_policy 0 (0 + 4) (stream broken lowest default_policy (world fresh))
stream-Once_example = stream-Once broken lowest default_policy (world fresh)
