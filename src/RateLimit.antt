-- ===== src/RateLimit.antt =====
-- `TenantRateLimiter`: apps/api/src/llm/rate_limit.py. Times are in milliseconds.
pub mod Store
pub mod Window
pub mod Refused
pub mod Budget
mod Tests
use saas_genai_starter.Common.{
  ℕ, ◌+◌, ◌-◌, ◌*◌, ◌/◌, ◌%◌, max, Bool, Option, none, some, List, [], ◌∷◌, String, leb, str_eq,
  if◌then◌else◌, or_else, get,
}
use Store.{Redis}

-- WINDOW_SECONDS
abbrev pub window_ms : ℕ
window_ms = 60000

pub record Limits : Type 0 where
  pub requests_per_minute : ℕ
  pub tokens_per_day : ℕ
  pub plan_limits : List (String × (ℕ × ℕ))

-- `plan or ""`
abbrev pub plan_name : Option String → String
plan_name none = ""
plan_name (some p) = p

unfoldable pub plan_or_base : Limits → Option (ℕ × ℕ) → ℕ × ℕ
plan_or_base l none = (l.requests_per_minute, l.tokens_per_day)
plan_or_base l (some p) = p

unfoldable pub effective_limits : Limits → Option ℕ → Option ℕ → Option String → ℕ × ℕ
unfolding plan_or_base
effective_limits l rpm_override tpd_override plan =
    let p = plan_or_base l (get (plan_name plan) l.plan_limits) in
    (or_else rpm_override p.0, or_else tpd_override p.1)

-- the settings that `get_rate_limiter` reads
pub record RateSettings : Type 0 where
  pub requests_per_minute : ℕ
  pub tokens_per_day : ℕ
  pub pro_requests_per_minute : ℕ
  pub pro_tokens_per_day : ℕ
  pub billing_enabled : Bool

unfoldable pub get_rate_limiter : RateSettings → Limits
get_rate_limiter s = record {
  requests_per_minute = s.requests_per_minute;
  tokens_per_day = s.tokens_per_day;
  plan_limits =
      if s.billing_enabled
      then ("pro", (s.pro_requests_per_minute, s.pro_tokens_per_day)) ∷ []
      else [];
}

-- The seconds since midnight, and to the next one.
abbrev pub second_of_day : ℕ → ℕ
second_of_day now = now / 1000 % 86400

unfoldable pub seconds_until_midnight : ℕ → ℕ
seconds_until_midnight now = max 1 (86399 - second_of_day now + 1)

-- the day of `_tokens_key`
abbrev pub day_of : ℕ → ℕ
day_of now = now / 86400000

-- A check passes, raises QuotaExceeded with its `retry_after_seconds`, or meets a RedisError.
pub data Checked : Type 0 where
  passed : Checked
  exceeded : ℕ → Checked
  redis_error : Checked

unfoldable pub retry_after_seconds : Option ℕ → ℕ → ℕ
retry_after_seconds oldest now = max 1 ((or_else oldest now + window_ms - now) / 1000 + 1)

module _ {R : Type 0} (redis : Redis R) where
  unfoldable pub refuse : ℕ → Option (Option ℕ) × R → Checked × R
  unfolding retry_after_seconds
  refuse now (none, r) = (redis_error, r)
  refuse now (some oldest, r) = (exceeded (retry_after_seconds oldest now), r)

  unfoldable pub admit : Option (Unit {0}) × R → Checked × R
  admit (none, r) = (redis_error, r)
  admit (some done, r) = (passed, r)

  unfoldable pub counted : ℕ → ℕ → ℕ → Option ℕ × R → Checked × R
  unfolding refuse admit
  counted tenant limit now (none, r) = (redis_error, r)
  counted tenant limit now (some current, r) =
      if leb limit current
      then refuse now (redis.oldest tenant r)
      else admit (redis.push tenant now r)

  unfoldable pub check_requests : ℕ → ℕ → ℕ → R → Checked × R
  unfolding counted
  check_requests tenant limit now r = counted tenant limit now (redis.prune tenant now window_ms r)

  -- `int(used) >= limit`, where there is a counter
  unfoldable pub over : ℕ → ℕ → Option (Option ℕ) × R → Checked × R
  unfolding seconds_until_midnight
  over limit now (none, r) = (redis_error, r)
  over limit now (some none, r) = (passed, r)
  over limit now (some (some used), r) =
      if leb limit used then (exceeded (seconds_until_midnight now), r) else (passed, r)

  unfoldable pub check_tokens : ℕ → ℕ → ℕ → R → Checked × R
  unfolding over
  check_tokens tenant limit now r = over limit now (redis.used tenant (day_of now) r)

  unfoldable pub then_tokens : ℕ → ℕ → ℕ → Checked × R → Checked × R
  unfolding check_tokens
  then_tokens tenant tpd now (passed, r) = check_tokens tenant tpd now r
  then_tokens tenant tpd now (exceeded s, r) = (exceeded s, r)
  then_tokens tenant tpd now (redis_error, r) = (redis_error, r)

  -- what the caller of `check` meets: a RedisError is logged, and the request is allowed
  abbrev pub answer : Checked → Option ℕ
  answer passed = none
  answer (exceeded s) = some s
  answer redis_error = none

  -- `none` allows the request; `some s` raises QuotaExceeded.
  unfoldable pub check : ℕ → ℕ × ℕ → ℕ → R → Option ℕ × R
  unfolding check_requests then_tokens
  check tenant (rpm, tpd) now r =
      let (c, r') = then_tokens tenant tpd now (check_requests tenant rpm now r) in (answer c, r')

  unfoldable pub used_or_zero : Option (Option ℕ) → ℕ
  used_or_zero none = 0
  used_or_zero (some none) = 0
  used_or_zero (some (some n)) = n

  unfoldable pub tokens_used_today : ℕ → ℕ → R → ℕ × R
  unfolding used_or_zero
  tokens_used_today tenant now r =
      let (u, r') = redis.used tenant (day_of now) r in (used_or_zero u, r')

  unfoldable pub record_tokens : ℕ → ℕ → ℕ → R → R
  record_tokens tenant tokens now r =
      if leb tokens 0 then r else (redis.incrby tenant (day_of now) tokens r).1
