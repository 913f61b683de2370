-- ===== src/Auth/Jwks.antt =====
-- `JwksCache` of apps/api/src/core/auth.py. The auth service's answer to a fetch is an argument, since
-- it is the network's; so is `py_jwk`, which stands for `jwt.PyJWK` with `none` for its exception. The
-- clock is read twice: `now` by `get_key`, `done` at the end of `_refresh`.
use saas_genai_starter.Common.{
  ℕ, ◌+◌, Bool, true, not, ◌||◌, Option, none, some, List, [], ◌∷◌, String, str_eq, get, leb,
  is_some, if◌then◌else◌,
}
use saas_genai_starter.Core.Errors.{unauthorized, auth_unavailable}
use saas_genai_starter.Core.Action.{Action, ok, err, crash, pure, raise, ◌>>◌}

-- One item of the answer's "keys", and the answer: an `httpx.HTTPError`, a body that is no JSON object,
-- or the items.
pub record KeyData (Data : Type 0) : Type 0 where
  pub kid : Option String
  pub body : Data

pub data Answer (Data : Type 0) : Type 0 where
  http_error garbled : Answer Data
  page : List (KeyData Data) → Answer Data

-- A dict is its items, in the order of insertion.
pub record JwksCache (Key : Type 0) : Type 0 where
  pub ttl : ℕ
  pub keys : List (String × Key)
  pub fetched_at : Option ℕ

unfoldable pub new_cache : {Key : Type 0} → ℕ → JwksCache Key
new_cache ttl_seconds = record { ttl = ttl_seconds; keys = []; fetched_at = none }

-- `d[k] = v`
unfoldable pub insert : {V : Type 0} → String → V → List (String × V) → List (String × V)
insert k v [] = (k, v) ∷ []
insert k v ((j, w) ∷ d) =
    let rest = insert k v d in if str_eq k j then (j, v) ∷ d else (j, w) ∷ rest

unfoldable pub older_than_ttl : Option ℕ → ℕ → ℕ → Bool
older_than_ttl none ttl now = true
older_than_ttl (some t) ttl now = not (leb now (t + ttl))

module _ {Key : Type 0} where
  unfoldable pub must_refresh : String → ℕ → JwksCache Key → Bool
  unfolding older_than_ttl
  must_refresh kid now cache =
      older_than_ttl cache.fetched_at cache.ttl now || not (is_some (get kid cache.keys))

  unfoldable pub store_keys : ℕ → Option (List (String × Key)) → Action (JwksCache Key) (Unit {0})
  store_keys done none cache = (crash "PyJWKError", cache)
  store_keys done (some keys) cache = (ok tt, record cache { keys = keys; fetched_at = some done })

  unfoldable pub key_or_unknown : Option Key → Action (JwksCache Key) Key
  key_or_unknown none = raise (unauthorized "Unknown signing key")
  key_or_unknown (some key) = pure key

  -- `self._keys[kid]`
  unfoldable pub key_at : String → Action (JwksCache Key) Key
  unfolding key_or_unknown
  key_at kid cache = key_or_unknown (get kid cache.keys) cache

module _ {Data Key : Type 0} (py_jwk : Data → Option Key) where
  -- The dict comprehension, from the dict built so far; `none` where `jwt.PyJWK` raises.
  unfoldable pub collect : List (KeyData Data) → List (String × Key) → Option (List (String × Key))
  unfolding insert
  collect [] d = some d
  collect (item ∷ items) d = elim item.kid [
    | none ↦ collect items d
    | some kid ↦ elim (py_jwk item.body) [
      | none ↦ none
      | some key ↦ collect items (insert kid key d)
    ]
  ]

  unfoldable pub refresh : Answer Data → ℕ → Action (JwksCache Key) (Unit {0})
  unfolding collect store_keys
  refresh http_error done cache = (err auth_unavailable, cache)
  refresh garbled done cache = (crash "JSONDecodeError", cache)
  refresh (page items) done cache = store_keys done (collect items []) cache

  unfoldable pub get_key : String → Answer Data → ℕ → ℕ → Action (JwksCache Key) Key
  unfolding refresh must_refresh key_at
  get_key kid answer now done cache =
      if must_refresh kid now cache
      then (refresh answer done >> key_at kid) cache
      else key_at kid cache
