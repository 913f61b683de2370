-- ===== src/LlmSettings/Cache.antt =====
-- What the resolver answers from its cache, and the size of the cache.
use saas_genai_starter.Common.{
  ◌≤◌, Bool, true, Option, none, some, String, ◌≡◌, str_eq, length, All,
}
use saas_genai_starter.Core.Crypto.{Attempt, done, failed}
use saas_genai_starter.LlmSettings.Resolver.{
  Built, CacheKey, Cache, cache_max, Resolved, resolved, provider_not_configured, key_error,
  cache_key, secret_error,
}

module _ (fingerprint : String → String) where
  IsKeyed : CacheKey × Built → Type 0
  IsKeyed e = e.0 ≡ cache_key fingerprint (e.1)

  -- Every entry stands under the key of its provider, and there are at most _CACHE_MAX of them.
  unfoldable pub IsSound : Cache → Type 0
  unfolding IsKeyed
  IsSound cache = All IsKeyed cache × (length cache ≤ cache_max)

  abbrev pub no_key : Option String → Bool
  no_key none = true
  no_key (some k) = str_eq k ""

  -- `r` answers for the provider, the model and the key that the settings choose.
  unfoldable pub Serves : String → String → Attempt (Option String) → Resolved → Type 0
  Serves provider model key (resolved b) =
      (b.provider_id ≡ provider)
      × (b.model ≡ model)
      × (k : String) × (key ≡ done (some k))
      × (fingerprint k ≡ fingerprint b.api_key)
  Serves provider model key provider_not_configured =
      (o : Option String) × (key ≡ done o) × (no_key o ≡ true)
  Serves provider model key key_error = ⊥
  Serves provider model key (secret_error t) = key ≡ failed t
