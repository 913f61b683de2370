-- ===== src/LlmSettings/Service.antt =====
-- `OrgLLMSettings` and `LLMSettingsService` of apps/api/src/domains/llm_settings/. The columns of the
-- encrypted keys, and the key fields of a payload, are functions of the key field's name.
use saas_genai_starter.Common.{
  ℕ, Bool, true, false, not, ◌&&◌, ◌||◌, Option, none, some, List, [], ◌∷◌, String, if◌then◌else◌,
  str_eq, ◌==◌, get, first, keep_if,
}
use saas_genai_starter.Core.Errors.{bad_request, forbidden}
use saas_genai_starter.Core.Action.{Action, ok, crash, gets, raise_if, modify, pure, ◌>>=◌, ◌>>◌}
use saas_genai_starter.Core.Crypto.{
  Secrets, Attempt, done, failed, and_then, encrypt_secret, decrypt_secret,
}
use saas_genai_starter.Catalog.{
  ChatProviderInfo, chat_providers, key_fields, validate_chat_choice, validate_embedding_choice,
}
use saas_genai_starter.Tenants.Models.{Role, owner, admin, member, other}

pub record OrgLlmSettings : Type 0 where
  pub tenant_id : ℕ
  pub chat_provider : String
  pub chat_model : String
  pub embedding_provider : String
  pub encrypted_key : String → Option String

pub record LlmSettingsUpdate : Type 0 where
  pub chat_provider : Option String
  pub chat_model : Option String
  pub embedding_provider : Option String
  pub key : String → Option String

unfoldable pub default_settings : ℕ → OrgLlmSettings
default_settings tenant = record {
  tenant_id = tenant;
  chat_provider = "anthropic";
  chat_model = "claude-sonnet-4-6";
  embedding_provider = "voyage";
  encrypted_key = (λ k. none);
}

unfoldable pub or_default : ℕ → Option OrgLlmSettings → OrgLlmSettings
unfolding default_settings
or_default tenant none = default_settings tenant
or_default tenant (some settings) = settings

unfoldable pub get_or_default : ℕ → List OrgLlmSettings → OrgLlmSettings
unfolding or_default
get_or_default tenant rows = or_default tenant (first (keep_if (λ s. s.tenant_id == tenant) rows))

-- `db.add`: an instance that is already stored is updated in place
unfoldable pub save : OrgLlmSettings → List OrgLlmSettings → List OrgLlmSettings
save settings [] = settings ∷ []
save settings (s ∷ rows) =
    if s.tenant_id == settings.tenant_id then settings ∷ rows else s ∷ save settings rows

-- `value or default`
unfoldable pub value_or : Option String → String → String
value_or none d = d
value_or (some v) d = if str_eq v "" then d else v

unfoldable pub given : Option String → Bool
given none = false
given (some v) = not (str_eq v "")

-- `CHAT_PROVIDERS[provider].default_model`
unfoldable pub default_model {ℓ} : {S : Type ℓ} → Option ChatProviderInfo → Action S String
default_model none s = (crash "KeyError", s)
default_model (some info) s = (ok info.default_model, s)

unfoldable pub pick_model : LlmSettingsUpdate → OrgLlmSettings → Action (List OrgLlmSettings) String
unfolding given value_or default_model
pick_model payload settings =
    if given payload.chat_provider && not (given payload.chat_model)
    then default_model (get (value_or payload.chat_provider "") chat_providers)
    else pure (value_or payload.chat_model settings.chat_model)

-- `role in ("owner", "admin")`
unfoldable pub is_admin : Role → Bool
is_admin owner = true
is_admin admin = true
is_admin member = false
is_admin (other r) = str_eq r "owner" || str_eq r "admin"

unfoldable pub changed :
    LlmSettingsUpdate → String → (String → Option String) → OrgLlmSettings → OrgLlmSettings
unfolding value_or
changed payload model columns settings = record settings {
  chat_provider = value_or payload.chat_provider settings.chat_provider;
  chat_model = model;
  embedding_provider = value_or payload.embedding_provider settings.embedding_provider;
  encrypted_key = columns;
}

-- an exception of the cipher ends the request
unfoldable pub or_crash {ℓ κ} : {S : Type ℓ} {A : Type κ} → Attempt A → Action S A
or_crash (done a) s = (ok a, s)
or_crash (failed t) s = (crash t, s)

module _ (secrets : Secrets) (strip : String → String) where
  -- one turn of the loop over KEY_FIELDS: the column's value afterwards
  unfoldable pub new_key : Option String → Option String → Attempt (Option String)
  unfolding encrypt_secret
  new_key none old = done old
  new_key (some value) old =
      if str_eq value ""
      then done none
      else and_then (encrypt_secret secrets (strip value)) (λ e. done (some e))

  unfoldable pub set_keys :
      List String
      → (String → Option String)
      → (String → Option String)
      → Attempt (String → Option String)
  unfolding new_key
  set_keys [] given_keys column = done column
  set_keys (f ∷ fs) given_keys column = elim (new_key (given_keys f) (column f)) [
    | done c ↦ set_keys fs given_keys (λ k. if str_eq k f then c else column k)
    | failed t ↦ failed t
  ]

  -- `update` from the validation of the choice on
  unfoldable pub write_settings :
      LlmSettingsUpdate → OrgLlmSettings → String → Action (List OrgLlmSettings) OrgLlmSettings
  unfolding value_or given changed save set_keys or_crash
  write_settings payload settings model = do
    raise_if
        (not (validate_chat_choice (value_or payload.chat_provider settings.chat_provider) model))
        (bad_request "Unknown model")
    raise_if
        (given payload.embedding_provider
          && not (validate_embedding_choice (value_or payload.embedding_provider "")))
        (bad_request "Unknown embedding provider")
    columns ← or_crash (set_keys key_fields payload.key settings.encrypted_key)
    modify (save (changed payload model columns settings))
    pure (changed payload model columns settings)

  unfoldable pub update : ℕ → Role → LlmSettingsUpdate → Action (List OrgLlmSettings) OrgLlmSettings
  unfolding is_admin get_or_default pick_model write_settings
  update tenant role payload = do
    raise_if (not (is_admin role)) (forbidden "Requires the admin role")
    settings ← gets (get_or_default tenant)
    model ← pick_model payload settings
    write_settings payload settings model

module _ (secrets : Secrets) where
  unfoldable pub decrypted : Option String → Attempt (Option String)
  unfolding decrypt_secret
  decrypted none = done none
  decrypted (some e) =
      if str_eq e "" then done none else and_then (decrypt_secret secrets e) (λ t. done (some t))

  unfoldable pub decrypted_key : OrgLlmSettings → String → Attempt (Option String)
  unfolding decrypted
  decrypted_key settings field = decrypted (settings.encrypted_key field)
