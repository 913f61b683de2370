-- ===== src/Llm/Errors.antt =====
-- The provider errors of apps/api/src/llm/errors.py, and their HTTP mapping in
-- apps/api/src/core/errors.py.
use saas_genai_starter.Common.{ℕ, Bool, true, false, Option, none, String}

-- One constructor for each class; every error has its message. Durations are in milliseconds.
pub data LlmError : Type 0 where
  rate_limited : String → Option ℕ → LlmError
  provider_unavailable : String → LlmError
  circuit_open : String → LlmError
  context_too_long : String → LlmError
  provider_bad_request : String → LlmError
  provider_not_configured : String → LlmError

-- the class attribute `retryable`
abbrev pub retryable : LlmError → Bool
retryable (rate_limited m r) = true
retryable (provider_unavailable m) = true
retryable (circuit_open m) = false
retryable (context_too_long m) = false
retryable (provider_bad_request m) = false
retryable (provider_not_configured m) = false

-- `isinstance(exc, RateLimited)`
abbrev pub is_rate_limited : LlmError → Bool
is_rate_limited (rate_limited m r) = true
is_rate_limited e = false

-- `getattr(exc, "retry_after", None)`
abbrev pub retry_after : LlmError → Option ℕ
retry_after (rate_limited m r) = r
retry_after e = none

-- `str(exc)`
abbrev pub message : LlmError → String
message (rate_limited m r) = m
message (provider_unavailable m) = m
message (circuit_open m) = m
message (context_too_long m) = m
message (provider_bad_request m) = m
message (provider_not_configured m) = m
