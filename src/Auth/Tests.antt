-- ===== src/Auth/Tests.antt =====
-- The theorems on authentication, at concrete requests.
use saas_genai_starter.Common.{ℕ, ◌≡◌, refl, Option, none, some, [], ◌∷◌, String, codes, arith}
use saas_genai_starter.Core.Action.{ok}
use saas_genai_starter.Chunking.Words.{Text}
use saas_genai_starter.Tenants.Service.{AuthenticatedUser}
use saas_genai_starter.Auth.Jwks.{
  KeyData, http_error, page, JwksCache, new_cache, insert, older_than_ttl, must_refresh, collect,
  store_keys, refresh, key_or_unknown, key_at, get_key,
}
use saas_genai_starter.Auth.Freshness.{Answers}
use saas_genai_starter.Auth.Tokens.{
  Claims, Decoded, claims, lower_char, lower, same_chars, partition, is_empty, bearer_token,
  user_of, claimed, verified, with_kid, with_token, get_current_user,
}
use saas_genai_starter.Auth.Sound.{Evidence}
use saas_genai_starter.Auth.History.{Asked, cache_after, get_current_user-Verified}

abbrev read_key : String → Option String
read_key s = some s

abbrev signing_key : KeyData String
signing_key = record { kid = some "k1"; body = "public" }

abbrev kid_of : Text → Option (Option String)
kid_of token = some (some "k1")

abbrev ada_claims : Claims
ada_claims = record { sub = some "ada"; email = none; name = some "Ada" }

abbrev decode : Text → String → Decoded
decode token key = claims ada_claims

abbrev number : String → ℕ
number s = 7

abbrev ada : AuthenticatedUser
ada = record { user_id = 7; email = none; name = some "Ada" }

-- The first request meets an auth service that is down, the second fetches the keys.
abbrev outage : Asked String
outage = record { header = some (codes "Bearer t"); answer = http_error; now = 1; done = 6 }

abbrev request : Asked String
request = record {
  header = some (codes "bEARer t");
  answer = page (signing_key ∷ []);
  now = 10;
  done = 11;
}

abbrev filled : JwksCache String
filled = record { ttl = 300; keys = ("k1", "public") ∷ []; fetched_at = some 11 }

abbrev Published : String → String → Type 0
Published kid key = key ≡ "public"

signing_key-Published : Answers read_key Published (page (signing_key ∷ []))
signing_key-Published = ((λ kid key k e. some_inj e), tt)
  where
    some_inj : {a b : String} → some a ≡ some b → b ≡ a
    some_inj e = cc

passes :
    get_current_user read_key kid_of decode number
      (some (codes "bEARer t"))
      (page (signing_key ∷ []))
      10
      11
      (cache_after read_key Published kid_of decode number (outage ∷ []) (new_cache 300))
    ≡ (ok ada, filled)
unfolding new_cache insert older_than_ttl must_refresh collect store_keys refresh key_or_unknown
    key_at get_key lower_char lower same_chars partition is_empty bearer_token user_of claimed
    verified with_kid with_token get_current_user
passes = refl

get_current_user-Verified_example :
    (token : Text) × (bearer_token (some (codes "bEARer t")) ≡ some token)
    × Evidence read_key kid_of decode number Published token 10 ada filled
get_current_user-Verified_example =
    get_current_user-Verified read_key Published kid_of decode number (outage ∷ []) 300 request ada
      filled (tt, tt) signing_key-Published (omega arith) passes
