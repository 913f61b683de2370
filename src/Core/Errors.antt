-- ===== src/Core/Errors.antt =====
-- The typed API errors of apps/api/src/core/errors.py, and how both families of errors are answered.
use saas_genai_starter.Common.{ℕ, List, [], ◌∷◌, String}
use saas_genai_starter.Llm.Errors.{
  LlmError, rate_limited, provider_unavailable, circuit_open, context_too_long,
  provider_bad_request, provider_not_configured,
}

-- One constructor for each subclass, and `api_error` for the base class, raised with its status,
-- code and message.
pub data ApiError : Type 0 where
  unauthorized : String → ApiError
  auth_unavailable : ApiError
  bad_request forbidden not_found conflict : String → ApiError
  quota_exceeded : String → ℕ → ApiError
  api_error : ℕ → String → String → ApiError

pub data Header : Type 0 where
  www_authenticate : String → Header
  retry_after : ℕ → Header

abbrev pub status_code : ApiError → ℕ
status_code (unauthorized m) = 401
status_code auth_unavailable = 503
status_code (bad_request m) = 400
status_code (forbidden m) = 403
status_code (not_found m) = 404
status_code (conflict m) = 409
status_code (quota_exceeded m s) = 429
status_code (api_error n c m) = n

abbrev pub error_code : ApiError → String
error_code (unauthorized m) = "unauthorized"
error_code auth_unavailable = "auth_unavailable"
error_code (bad_request m) = "bad_request"
error_code (forbidden m) = "forbidden"
error_code (not_found m) = "not_found"
error_code (conflict m) = "conflict"
error_code (quota_exceeded m s) = "quota_exceeded"
error_code (api_error n c m) = c

abbrev pub headers : ApiError → List Header
headers (unauthorized m) = www_authenticate "Bearer" ∷ []
headers (quota_exceeded m s) = retry_after s ∷ []
headers e = []

-- `handle_llm_error`: the status and the code of the response
pub handle_llm_error : LlmError → ℕ × String
handle_llm_error (rate_limited m r) = (429, "provider_rate_limited")
handle_llm_error (context_too_long m) = (413, "context_too_long")
handle_llm_error (provider_not_configured m) = (503, "llm_not_configured")
handle_llm_error (provider_unavailable m) = (503, "llm_unavailable")
handle_llm_error (circuit_open m) = (503, "llm_unavailable")
handle_llm_error (provider_bad_request m) = (503, "llm_unavailable")
