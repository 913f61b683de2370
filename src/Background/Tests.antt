-- ===== src/Background/Tests.antt =====
-- The theorems on background jobs, at concrete settings, tokens and tries.
use saas_genai_starter.Common.{
  ℕ, zero, suc, ◌≤◌, ◌≡◌, ◌⊎◌, true, Option, some, List, [], ◌∷◌, String, get, codes,
}
use saas_genai_starter.Core.Action.{Result, ok, err}
use saas_genai_starter.Chunking.Words.{Text}
use saas_genai_starter.Llm.Types.{exception, cancellation, Tried, value, raises}
use saas_genai_starter.Background.Push.{JobSettings, JobClaims, invalid_token, handle, run_job}
use saas_genai_starter.Background.Accepted.{bearer, Authorized, run_job-Authorized}
use saas_genai_starter.Background.Worker.{JobEnd, run_tries, Ended, run_tries-Ended}

abbrev settings : JobSettings
settings = record {
  cloud_tasks_queue = some "jobs";
  internal_jobs_base_url = some (codes "https://api/");
  jobs_service_account_email = some "jobs@acme";
}

abbrev service_claims : JobClaims
service_claims = record { email = some "jobs@acme"; email_verified = true }

abbrev verify_oidc : Text → Text → Option JobClaims
verify_oidc token audience = some service_claims

abbrev quoted : String → String
quoted s = s

abbrev count_up : ℕ → ℕ → Result (Unit {0}) × ℕ
count_up payload s = (ok tt, suc s)

abbrev handlers : List (String × (ℕ → ℕ → Result (Unit {0}) × ℕ))
handlers = ("ingest_document_job", count_up) ∷ []

run_job-Authorized_example :
    (run_job verify_oidc quoted handlers settings
        (some (bearer (codes "t")))
        "ingest_document_job"
        1
        0
      ≡ (err invalid_token, 0))
    ⊎ (Authorized verify_oidc settings (some (bearer (codes "t")))
        × (run_job verify_oidc quoted handlers settings
              (some (bearer (codes "t")))
              "ingest_document_job"
              1
              0
            ≡ handle verify_oidc quoted handlers "ingest_document_job"
                (get "ingest_document_job" handlers)
                1
                0))
run_job-Authorized_example =
    run_job-Authorized verify_oidc quoted handlers settings (some (bearer (codes "t")))
      "ingest_document_job" 1 0

-- A job that fails, is killed, and then returns.
abbrev flaky : ℕ → Tried (Unit {0}) × ℕ
flaky zero = (value tt, 0)
flaky (suc zero) = (raises cancellation, 0)
flaky (suc (suc n)) = (raises (exception "timeout"), suc n)

run_tries-Ended_example :
    (n : ℕ) × (x : JobEnd × ℕ) × (n ≤ 2) × (run_tries flaky 3 1 2 ≡ some x) × Ended flaky n 2 2 x
run_tries-Ended_example = run_tries-Ended flaky 2
