-- ===== src/LlmSettings/Tests.antt =====
-- The theorems on the provider settings, at concrete organizations.
use saas_genai_starter.Common.{
  refl, Option, none, some, [], ◌∷◌, String, All, str_eq, if◌then◌else◌,
}
use saas_genai_starter.Catalog.{
  chat_providers, validate_chat_choice, validate_embedding_choice, embedding_providers,
}
use saas_genai_starter.Tenants.Models.{admin}
use saas_genai_starter.Core.Crypto.{Fernet, Secrets}
use saas_genai_starter.LlmSettings.Service.{OrgLlmSettings, LlmSettingsUpdate, update}
use saas_genai_starter.LlmSettings.Validity.{IsValid, update-IsValid}

abbrev plain : String → String
plain s = s

-- a cipher whose texts all begin with an x
abbrev mark : String → String
mark s = String.◌∷◌ "x" s

abbrev unmark : String → Option String
unmark String.[] = none
unmark (String.◌∷◌ c s) = some s

abbrev marking : Fernet
marking = record { encrypt = mark; decrypt = unmark }

abbrev secrets : Secrets
secrets = record { secret_encryption_key = some "key"; fernet = (λ k. some marking) }

abbrev settings : OrgLlmSettings
settings = record {
  tenant_id = 1;
  chat_provider = "openai";
  chat_model = "gpt-5.1";
  embedding_provider = "openai";
  encrypted_key = (λ k. if str_eq k "openai_api_key" then some "xown" else none);
}

-- to mistral, with its key
abbrev payload : LlmSettingsUpdate
payload = record {
  chat_provider = some "mistral";
  chat_model = none;
  embedding_provider = none;
  key = (λ k. if str_eq k "mistral_api_key" then some "secret" else none);
}

settings-IsValid : IsValid settings
unfolding IsValid validate_chat_choice validate_embedding_choice chat_providers embedding_providers
settings-IsValid = (refl, refl)

update-IsValid_example : All IsValid ((update secrets plain 1 admin payload (settings ∷ [])).1)
update-IsValid_example =
    update-IsValid secrets plain 1 admin payload (settings ∷ []) (settings-IsValid, tt)
