-- ===== src/Background/Push.antt =====
-- `CloudTasksQueue.enqueue`, `verify_internal_job_token` and `run_job`. Google's check of a token is an
-- argument, with `none` for its exceptions; `P` is the type of a job's payload.
use saas_genai_starter.Common.{
  Bool, not, ◌&&◌, ◌||◌, Option, none, some, List, [], ◌∷◌, ◌++◌, String, ◌+s◌, ◌==◌, get, codes,
  or_else, if◌then◌else◌,
}
use saas_genai_starter.Core.Errors.{ApiError, api_error, not_found}
use saas_genai_starter.Core.Action.{Result, ok, err, crash}
use saas_genai_starter.Chunking.Words.{Text}
use saas_genai_starter.Auth.Tokens.{is_empty, bearer_token}
use saas_genai_starter.Billing.Events.{truthy, same_text}

pub record JobSettings : Type 0 where
  pub cloud_tasks_queue : Option String
  pub internal_jobs_base_url : Option Text
  pub jobs_service_account_email : Option String

-- The HTTP task: its URL, body, and the account and audience of its OIDC token.
pub record Task (P : Type 0) : Type 0 where
  pub queue : String
  pub url : Text
  pub body : P
  pub service_account_email : String
  pub audience : Text

pub record JobClaims : Type 0 where
  pub email : Option String
  pub email_verified : Bool

-- `s.rstrip("/")`
unfoldable pub rstrip_slash : Text → Text
unfolding is_empty
rstrip_slash [] = []
rstrip_slash (c ∷ s) =
    let rest = rstrip_slash s in if is_empty rest && (c == b'/') then [] else c ∷ rest

unfoldable pub base_url : JobSettings → Text
unfolding rstrip_slash
base_url settings = rstrip_slash (or_else settings.internal_jobs_base_url [])

-- The settings that `enqueue` asks for are truthy.
unfoldable pub is_configured : JobSettings → Bool
unfolding is_empty
is_configured settings =
    truthy settings.cloud_tasks_queue
    && (not (is_empty (or_else settings.internal_jobs_base_url []))
        && truthy settings.jobs_service_account_email)

unfoldable pub enqueue : {P : Type 0} → JobSettings → String → P → Result (Task P)
unfolding is_configured base_url
enqueue settings job_name payload =
    if is_configured settings
    then ok (record {
      queue = or_else settings.cloud_tasks_queue "";
      url = base_url settings ++ (codes "/internal/jobs/" ++ codes job_name);
      body = payload;
      service_account_email = or_else settings.jobs_service_account_email "";
      audience = base_url settings;
    })
    else crash "RuntimeError"

-- `Forbidden403`
abbrev pub invalid_token : ApiError
invalid_token = api_error 403 "forbidden" "Invalid or missing job token"

module _ (verify_oidc : Text → Text → Option JobClaims) where
  unfoldable pub claims_accepted : Option String → Option JobClaims → Result (Unit {0})
  claims_accepted expected none = err invalid_token
  claims_accepted expected (some claims) =
      if not (same_text claims.email expected) || not claims.email_verified
      then err invalid_token
      else ok tt

  unfoldable pub token_accepted : Option String → Text → Option Text → Result (Unit {0})
  unfolding claims_accepted
  token_accepted expected audience none = err invalid_token
  token_accepted expected audience (some token) =
      claims_accepted expected (verify_oidc token audience)

  unfoldable pub verify_internal_job_token : JobSettings → Option Text → Result (Unit {0})
  unfolding base_url is_empty token_accepted bearer_token
  verify_internal_job_token settings header =
      if not (truthy settings.jobs_service_account_email) || is_empty (base_url settings)
      then err invalid_token
      else token_accepted settings.jobs_service_account_email (base_url settings)
          (bearer_token header)

  module _ {P S : Type 0} (repr : String → String)
      (job_handlers : List (String × (P → S → Result (Unit {0}) × S))) where
    unfoldable pub handle :
        String → Option (P → S → Result (Unit {0}) × S) → P → S → Result (Unit {0}) × S
    handle job_name none payload s = (err (not_found ("Unknown job " +s repr job_name)), s)
    handle job_name (some handler) payload s = handler payload s

    abbrev pub admitted : Result (Unit {0}) → String → P → S → Result (Unit {0}) × S
    admitted (ok u) job_name payload s = handle job_name (get job_name job_handlers) payload s
    admitted (err e) job_name payload s = (err e, s)
    admitted (crash t) job_name payload s = (crash t, s)

    -- `POST /internal/jobs/{job_name}`, behind its dependency
    unfoldable pub run_job : JobSettings → Option Text → String → P → S → Result (Unit {0}) × S
    unfolding verify_internal_job_token handle
    run_job settings header = admitted (verify_internal_job_token settings header)
