-- ===== src/Auth/History.antt =====
-- The key cache over a history of requests: `get_jwks_cache` keeps one cache for the process.
use saas_genai_starter.Common.{
  ℕ, ◌≤◌, ◌≡◌, refl, Bool-cases, inl, inr, Option, none, some, List, [], ◌∷◌, String, str_eq, get,
  All,
}
use saas_genai_starter.Core.Action.{Result, ok, err, crash, ◌>>=◌, ◌>>◌}
use saas_genai_starter.Chunking.Words.{Text}
use saas_genai_starter.Tenants.Service.{AuthenticatedUser}
use saas_genai_starter.Auth.Jwks.{
  Answer, JwksCache, new_cache, refresh, must_refresh, key_or_unknown, key_at, get_key,
}
use saas_genai_starter.Auth.Freshness.{Answers, IsGenuine, refresh-IsGenuine}
use saas_genai_starter.Auth.Tokens.{
  Decoded, claimed, verified, with_kid, with_token, bearer_token, get_current_user,
}
use saas_genai_starter.Auth.Sound.{Evidence, with_token_lem}

-- A request: its header, the two readings of the clock, and what the auth service would answer.
pub record Asked (Data : Type 0) : Type 0 where
  pub header : Option Text
  pub answer : Answer Data
  pub now : ℕ
  pub done : ℕ

module _ {Data Key : Type 0} (py_jwk : Data → Option Key) (P : String → Key → Type 0) where
  key_or_unknown_cache :
      (found : Option Key) (cache : JwksCache Key) → (key_or_unknown found cache).1 ≡ cache
  unfolding key_or_unknown
  key_or_unknown_cache none cache = refl
  key_or_unknown_cache (some key) cache = refl

  key_at_cache :
      (kid : String) (cache : JwksCache Key)
      → IsGenuine py_jwk P cache
      → IsGenuine py_jwk P (key_at kid cache).1
  unfolding key_at
  key_at_cache kid cache g = rw (key_or_unknown_cache (get kid cache.keys) cache) g

  then_key :
      (kid : String) (tried : Result (Unit {0}) × JwksCache Key) (cache : JwksCache Key)
      → IsGenuine py_jwk P tried.1
      → IsGenuine py_jwk P (((λ c. tried) >> key_at kid) cache).1
  then_key kid (ok u, c) cache g = key_at_cache kid c g
  then_key kid (err x, c) cache g = g
  then_key kid (crash x, c) cache g = g

  get_key-IsGenuine :
      (kid : String) (answer : Answer Data) (now done : ℕ) (cache : JwksCache Key)
      → Answers py_jwk P answer
      → IsGenuine py_jwk P cache
      → IsGenuine py_jwk P (get_key py_jwk kid answer now done cache).1
  unfolding get_key
  get_key-IsGenuine kid answer now done cache a g = elim (Bool-cases (must_refresh kid now cache)) [
    | inl old ↦
        rw (must_refresh, old)
          (then_key kid (refresh py_jwk answer done cache) cache
            (refresh-IsGenuine py_jwk P answer done cache a g))
    | inr held ↦ rw (must_refresh, held) (key_at_cache kid cache g)
  ]

  module _ (unverified_kid : Text → Option (Option String)) (decode : Text → Key → Decoded)
      (subject_id : String → ℕ) where
    then_claimed :
        (token : Text) (served : Result Key × JwksCache Key) (cache : JwksCache Key)
        → IsGenuine py_jwk P served.1
        → IsGenuine py_jwk P
            (((λ c. served) >>= λ key s. (claimed subject_id (decode token key), s)) cache).1
    then_claimed token (ok key, c) cache g = g
    then_claimed token (err x, c) cache g = g
    then_claimed token (crash x, c) cache g = g

    with_kid-IsGenuine :
        (token : Text) (kid : Option (Option String)) (answer : Answer Data) (now done : ℕ)
        (cache : JwksCache Key)
        → Answers py_jwk P answer
        → IsGenuine py_jwk P cache
        → IsGenuine py_jwk P
            (with_kid py_jwk unverified_kid decode subject_id token kid answer now done cache).1
    unfolding with_kid verified
    with_kid-IsGenuine token none answer now done cache a g = g
    with_kid-IsGenuine token (some none) answer now done cache a g = g
    with_kid-IsGenuine token (some (some kid)) answer now done cache a g =
        elim (Bool-cases (str_eq kid "")) [
          | inl b ↦ rw b g
          | inr b ↦ rw b (
              then_claimed token (get_key py_jwk kid answer now done cache) cache
                (get_key-IsGenuine kid answer now done cache a g))
        ]

    with_token-IsGenuine :
        (token : Option Text) (answer : Answer Data) (now done : ℕ) (cache : JwksCache Key)
        → Answers py_jwk P answer
        → IsGenuine py_jwk P cache
        → IsGenuine py_jwk P
            (with_token py_jwk unverified_kid decode subject_id token answer now done cache).1
    unfolding with_token
    with_token-IsGenuine none answer now done cache a g = g
    with_token-IsGenuine (some t) answer now done cache a g =
        with_kid-IsGenuine t (unverified_kid t) answer now done cache a g

    -- The cache after the requests, the first of the list first.
    abbrev pub cache_after : List (Asked Data) → JwksCache Key → JwksCache Key
    cache_after [] cache = cache
    cache_after (r ∷ rs) cache =
        cache_after rs
          (get_current_user py_jwk unverified_kid decode subject_id r.header r.answer r.now r.done
            cache).1

    cache_after-IsGenuine :
        (rs : List (Asked Data)) (cache : JwksCache Key)
        → All (λ r. Answers py_jwk P r.answer) rs
        → IsGenuine py_jwk P cache
        → IsGenuine py_jwk P (cache_after rs cache)
    unfolding get_current_user
    cache_after-IsGenuine [] cache a g = g
    cache_after-IsGenuine (r ∷ rs) cache a g =
        cache_after-IsGenuine rs _ a.1
          (with_token-IsGenuine (bearer_token r.header) r.answer r.now r.done cache a.0 g)

    -- After any history of requests since the process started: who gets through `get_current_user`
    -- bears, in a bearer Authorization header, a token that PyJWT decodes without an exception under
    -- a key that the auth service published under the token's kid (`P` holds of all published keys)
    -- and that was fetched at most the time to live ago, and the user is the subject of the claims.
    pub get_current_user-Verified :
        (history : List (Asked Data)) (ttl : ℕ) (r : Asked Data) (u : AuthenticatedUser)
        (after : JwksCache Key)
        → All (λ x. Answers py_jwk P x.answer) history
        → Answers py_jwk P r.answer
        → r.now ≤ r.done
        → get_current_user py_jwk unverified_kid decode subject_id r.header r.answer r.now r.done
            (cache_after history (new_cache ttl))
          ≡ (ok u, after)
        → (token : Text) × (bearer_token r.header ≡ some token)
          × Evidence py_jwk unverified_kid decode subject_id P token r.now u after
    unfolding get_current_user new_cache
    get_current_user-Verified history ttl r u after hs a h e =
        with_token_lem py_jwk unverified_kid decode subject_id P r.header (bearer_token r.header)
          r.answer r.now r.done _ u after h a (cache_after-IsGenuine history (new_cache ttl) hs tt)
          refl e
