-- ===== src/Background/Accepted.antt =====
-- Whose jobs the internal endpoint runs: those that `enqueue` makes, and none without a token.
use saas_genai_starter.Common.{
  ℕ, ◌≡◌, refl, sym, ap, ◌⊎◌, inl, inr, Bool, true, false, not, ◌&&◌, ◌||◌, Bool-cases, Option,
  none, some, List, ◌∷◌, ◌++◌, String, str_eq_iff, get, codes, or_else,
}
use saas_genai_starter.Core.Action.{Result, ok, err}
use saas_genai_starter.Chunking.Words.{Text}
use saas_genai_starter.Auth.Tokens.{
  lower_char, lower, same_chars, partition, is_empty, bearer_token,
}
use saas_genai_starter.Billing.Events.{truthy, same_text}
use saas_genai_starter.Background.Push.{
  JobSettings, Task, JobClaims, base_url, is_configured, enqueue, invalid_token, claims_accepted,
  token_accepted, verify_internal_job_token, handle, run_job,
}

-- `Bearer `, as Cloud Tasks sends its token
abbrev pub bearer : Text → Text
bearer token = codes "Bearer " ++ token

module _ (verify_oidc : Text → Text → Option JobClaims) where
  -- Google accepts the token for the audience, as the service account's.
  abbrev pub Authorized : JobSettings → Option Text → Type 0
  Authorized settings header =
      (token : Text) × (claims : JobClaims) × (bearer_token header ≡ some token)
      × (verify_oidc token (base_url settings) ≡ some claims)
      × (same_text claims.email settings.jobs_service_account_email ≡ true)
      × (claims.email_verified ≡ true)

  claims_lem :
      (settings : JobSettings) (header : Option Text) (token : Text) (found : Option JobClaims)
      → bearer_token header ≡ some token
      → verify_oidc token (base_url settings) ≡ found
      → (claims_accepted verify_oidc settings.jobs_service_account_email found ≡ err invalid_token)
        ⊎ ((claims_accepted verify_oidc settings.jobs_service_account_email found ≡ ok tt)
            × Authorized settings header)
  unfolding claims_accepted
  claims_lem settings header token none b v = inl refl
  claims_lem settings header token (some claims) b v =
      elim (Bool-cases (same_text claims.email settings.jobs_service_account_email)) [
        | inr e ↦ inl (rw e refl)
        | inl e ↦ elim (Bool-cases claims.email_verified) [
          | inr f ↦ inl (rw (e, f) refl)
          | inl f ↦ inr (rw (e, f) refl, (token, claims, b, v, e, f))
        ]
      ]

  token_lem :
      (settings : JobSettings) (header token : Option Text)
      → bearer_token header ≡ token
      → (token_accepted verify_oidc settings.jobs_service_account_email (base_url settings) token
          ≡ err invalid_token)
        ⊎ ((token_accepted verify_oidc settings.jobs_service_account_email (base_url settings) token
              ≡ ok tt)
            × Authorized settings header)
  unfolding token_accepted
  token_lem settings header none b = inl refl
  token_lem settings header (some token) b =
      claims_lem settings header token (verify_oidc token (base_url settings)) b refl

  verify_lem :
      (settings : JobSettings) (header : Option Text)
      → (verify_internal_job_token verify_oidc settings header ≡ err invalid_token)
        ⊎ ((verify_internal_job_token verify_oidc settings header ≡ ok tt)
            × Authorized settings header)
  unfolding verify_internal_job_token
  verify_lem settings header =
      elim (Bool-cases
        (not (truthy settings.jobs_service_account_email) || is_empty (base_url settings))) [
          | inl e ↦ inl (rw e refl)
          | inr e ↦ rw e (token_lem settings header (bearer_token header) refl)
        ]

  module _ {P S : Type 0} (repr : String → String)
      (job_handlers : List (String × (P → S → Result (Unit {0}) × S))) where
    -- A call of the job endpoint either is a 403 that changes nothing, or its bearer token is one that
    -- Google accepts for the service's own audience, with the verified email of the configured
    -- account, and the call does what the handler of that name does.
    pub run_job-Authorized :
        (settings : JobSettings) (header : Option Text) (job_name : String) (payload : P) (s : S)
        → (run_job verify_oidc repr job_handlers settings header job_name payload s
            ≡ (err invalid_token, s))
          ⊎ (Authorized settings header
              × (run_job verify_oidc repr job_handlers settings header job_name payload s
                  ≡ handle verify_oidc repr job_handlers job_name
                      (get job_name job_handlers)
                      payload
                      s))
    unfolding run_job
    run_job-Authorized settings header job_name payload s = elim (verify_lem settings header) [
      | inl e ↦ inl (rw e refl)
      | inr (e, a) ↦ inr (a, rw e refl)
    ]

and_true : (a b : Bool) → (a && b) ≡ true → (a ≡ true) × (b ≡ true)
and_true true b h = (refl, h)
and_true false b h = absurd (cc)

same_text-or_else : (o : Option String) → truthy o ≡ true → same_text (some (or_else o "")) o ≡ true
same_text-or_else none t = absurd (cc)
same_text-or_else (some s) t = (str_eq_iff s s).1 refl

module _ {P : Type 0} (verify_oidc : Text → Text → Option JobClaims) where
  enqueue_lem :
      (settings : JobSettings) (job_name : String) (payload : P) (task : Task P)
      → enqueue settings job_name payload ≡ ok task
      → (truthy settings.jobs_service_account_email ≡ true)
        × (task.audience ≡ base_url settings)
        × (task.service_account_email ≡ or_else settings.jobs_service_account_email "")
  unfolding enqueue is_configured
  enqueue_lem settings job_name payload task e = elim (Bool-cases (is_configured settings)) [
    | inr n ↦ absurd (cc (rw (is_configured, n) at e))
    | inl c ↦
        let made = made_is (rw (is_configured, c) at e) in
        let (q, rest) = and_true _ _ c in
        let (b, email) = and_true _ _ rest in
        (email, sym (ap (λ t. t.audience) made), sym (ap (λ t. t.service_account_email) made))
  ]
    where
      made_is : {a b : Task P} → ok a ≡ ok b → a ≡ b
      made_is e = cc

  -- A task that `enqueue` makes passes the check of the endpoint, with the same settings: a token that
  -- Google accepts for the task's audience as the verified one of the task's account. The base URL has
  -- something besides its slashes, and the token is not empty.
  pub verify_internal_job_token-enqueue :
      (settings : JobSettings) (job_name : String) (payload : P) (task : Task P) (c : ℕ)
      (token : Text) (claims : JobClaims)
      → enqueue settings job_name payload ≡ ok task
      → is_empty (base_url settings) ≡ false
      → verify_oidc (c ∷ token) task.audience ≡ some claims
      → claims.email ≡ some task.service_account_email
      → claims.email_verified ≡ true
      → verify_internal_job_token verify_oidc settings (some (bearer (c ∷ token))) ≡ ok tt
  unfolding verify_internal_job_token token_accepted claims_accepted bearer_token partition lower
      lower_char same_chars is_empty
  verify_internal_job_token-enqueue settings job_name payload task c token claims e b v m f =
      let (t, a, account) = enqueue_lem settings job_name payload task e in
      rw (t, b, sym a, v, m, account, f, same_text-or_else settings.jobs_service_account_email t)
        refl
