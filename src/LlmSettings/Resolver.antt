-- ===== src/LlmSettings/Resolver.antt =====
-- apps/api/src/domains/llm_settings/resolver.py: the provider of an organization, from its settings and
-- the cache of built providers, the oldest entry first.
use saas_genai_starter.Common.{
  ℕ, Bool, ◌&&◌, Option, none, some, List, [], ◌∷◌, ◌++◌, String, if◌then◌else◌, str_eq, ltb,
  length, get,
}
use saas_genai_starter.Catalog.{
  ChatProviderInfo, EmbeddingProviderInfo, chat_providers, embedding_providers,
}
use saas_genai_starter.Core.Crypto.{Secrets, Attempt, done, failed, and_then}
use saas_genai_starter.LlmSettings.Service.{OrgLlmSettings, decrypted_key}

-- The class of the provider that is wrapped, with the arguments that it is built with.
pub data Adapter : Type 0 where
  anthropic openai voyage cohere : Adapter

pub record Built : Type 0 where
  pub adapter : Adapter
  pub provider_id : String
  pub model : String
  pub api_key : String
  pub base_url : String

pub record CacheKey : Type 0 where
  pub provider_id : String
  pub model : String
  pub fingerprint : String

abbrev pub Cache : Type 0
Cache = List (CacheKey × Built)

unfoldable pub same_key : CacheKey → CacheKey → Bool
same_key a b =
    str_eq a.provider_id b.provider_id
    && str_eq a.model b.model
    && str_eq a.fingerprint b.fingerprint

unfoldable pub lookup : CacheKey → Cache → Option Built
unfolding same_key
lookup key [] = none
lookup key ((k, b) ∷ cache) = if same_key key k then some b else lookup key cache

-- `_CACHE_MAX`
abbrev pub cache_max : ℕ
cache_max = 256

unfoldable pub store : CacheKey → Built → Cache → Cache
store key b cache = if ltb (length cache) cache_max then cache ++ (key, b) ∷ [] else (key, b) ∷ []

-- `provider_not_configured` is the exception ProviderNotConfigured, `key_error` a KeyError, and
-- `secret_error` the exception of a stored key that is not decrypted.
pub data Resolved : Type 0 where
  resolved : Built → Resolved
  provider_not_configured : Resolved
  key_error : Resolved
  secret_error : String → Resolved

unfoldable pub base_or : Option String → String
base_or none = "https://api.openai.com/v1"
base_or (some url) = if str_eq url "" then "https://api.openai.com/v1" else url

-- the cached provider, or the one that is built and stored
unfoldable pub reuse : CacheKey → Built → Option Built → Cache → Resolved × Cache
unfolding store
reuse key fresh none cache = (resolved fresh, store key fresh cache)
reuse key fresh (some b) cache = (resolved b, cache)

unfoldable pub chat_adapter : String → Adapter
chat_adapter provider = if str_eq provider "anthropic" then anthropic else openai

unfoldable pub build_chat : OrgLlmSettings → ChatProviderInfo → String → Built
unfolding chat_adapter base_or
build_chat settings info api_key = record {
  adapter = chat_adapter settings.chat_provider;
  provider_id = settings.chat_provider;
  model = settings.chat_model;
  api_key = api_key;
  base_url = base_or info.base_url;
}

unfoldable pub embedding_adapter : String → Adapter
embedding_adapter provider =
    if str_eq provider "voyage" then voyage else if str_eq provider "cohere" then cohere else openai

unfoldable pub build_embedding : OrgLlmSettings → EmbeddingProviderInfo → String → Built
unfolding embedding_adapter base_or
build_embedding settings info api_key = record {
  adapter = embedding_adapter settings.embedding_provider;
  provider_id = settings.embedding_provider;
  model = info.model;
  api_key = api_key;
  base_url = base_or info.base_url;
}

-- `org_key or getattr(get_settings(), key_field, None)`
unfoldable pub first_key : Option String → Option String → Option String
first_key none server = server
first_key (some k) server = if str_eq k "" then server else some k

-- what decrypts a stored key, and the attribute of the settings for a key field
module _ (secrets : Secrets) (server_key : String → Option String) where
  unfoldable pub resolve_key : OrgLlmSettings → String → Attempt (Option String)
  unfolding first_key decrypted_key
  resolve_key settings field =
      and_then (decrypted_key secrets settings field) (λ k. done (first_key k (server_key field)))

-- `sha256(api_key)[:16]`
module _ (fingerprint : String → String) where
  unfoldable pub cache_key : Built → CacheKey
  cache_key b = record {
    provider_id = b.provider_id;
    model = b.model;
    fingerprint = fingerprint b.api_key;
  }

  unfoldable pub from_cache : Built → Cache → Resolved × Cache
  unfolding reuse lookup cache_key
  from_cache fresh cache = reuse (cache_key fresh) fresh (lookup (cache_key fresh) cache) cache

  -- `if not api_key: raise ProviderNotConfigured`
  unfoldable pub with_key : (String → Built) → Option String → Cache → Resolved × Cache
  unfolding from_cache
  with_key build none cache = (provider_not_configured, cache)
  with_key build (some key) cache =
      if str_eq key "" then (provider_not_configured, cache) else from_cache (build key) cache

  unfoldable pub with_secret : (String → Built) → Attempt (Option String) → Cache → Resolved × Cache
  unfolding with_key
  with_secret build (done key) cache = with_key build key cache
  with_secret build (failed t) cache = (secret_error t, cache)

module _ (fingerprint : String → String) (secrets : Secrets)
    (server_key : String → Option String) where
  unfoldable pub resolve_chat : OrgLlmSettings → Option ChatProviderInfo → Cache → Resolved × Cache
  unfolding with_secret resolve_key build_chat
  resolve_chat settings none cache = (key_error, cache)
  resolve_chat settings (some info) cache =
      with_secret fingerprint (build_chat settings info)
        (resolve_key secrets server_key settings info.key_field) cache

  unfoldable pub resolve_chat_provider : OrgLlmSettings → Cache → Resolved × Cache
  unfolding resolve_chat
  resolve_chat_provider settings cache =
      resolve_chat settings (get settings.chat_provider chat_providers) cache

  unfoldable pub resolve_embedding :
      OrgLlmSettings → Option EmbeddingProviderInfo → Cache → Resolved × Cache
  unfolding with_secret resolve_key build_embedding
  resolve_embedding settings none cache = (key_error, cache)
  resolve_embedding settings (some info) cache =
      with_secret fingerprint (build_embedding settings info)
        (resolve_key secrets server_key settings info.key_field) cache

  unfoldable pub resolve_embedding_provider : OrgLlmSettings → Cache → Resolved × Cache
  unfolding resolve_embedding
  resolve_embedding_provider settings cache =
      resolve_embedding settings (get settings.embedding_provider embedding_providers) cache
