-- ===== src/Auth/Rotation.antt =====
-- What the key cache finds when the auth service rotates its keys.
use saas_genai_starter.Common.{
  ℕ, ◌≡◌, refl, sym, ap, ◌∙◌, Bool, true, false, ◌||◌, Bool-cases, Option-cases, inl, inr, Option,
  none, some, List, [], ◌∷◌, String, str_eq, str_eq_iff, get, any, is_some, All,
}
use saas_genai_starter.Core.Action.{ok, ◌>>◌}
use saas_genai_starter.Auth.Jwks.{
  KeyData, page, JwksCache, insert, collect, store_keys, refresh, older_than_ttl, must_refresh,
  key_or_unknown, key_at, get_key,
}
use saas_genai_starter.Auth.Freshness.{get-insert, get-insert_other}

-- The item has the kid.
unfoldable pub is_for : {Data : Type 0} → String → KeyData Data → Bool
is_for kid item = elim item.kid [ none ↦ false | some k ↦ str_eq kid k ]

or_right : (a b : Bool) → b ≡ true → (a || b) ≡ true
or_right true b h = refl
or_right false b h = h

-- An item for `k` goes into the dict: what was there or is among the rest still is.
carried :
    {V : Type 0} (kid k : String) (v : V) (d : List (String × V)) (rest : Bool)
    → (is_some (get kid d) || (str_eq kid k || rest)) ≡ true
    → (is_some (get kid (insert k v d)) || rest) ≡ true
carried kid k v d rest h = elim (Bool-cases (is_some (get kid d))) [
  | inl held ↦ rw (get-insert_other k kid v d held) refl
  | inr absent ↦ elim (Bool-cases (str_eq kid k)) [
    | inl same ↦ rw ((str_eq_iff kid k).0 same, get-insert k v d) refl
    | inr other ↦ or_right _ rest (rw (absent, other) at h)
  ]
]

module _ {Data Key : Type 0} (py_jwk : Data → Option Key) where
  -- PyJWT reads the item, if it has a kid.
  abbrev pub IsReadable : KeyData Data → Type 0
  IsReadable item =
      (kid : String) → item.kid ≡ some kid → (key : Key) × (py_jwk item.body ≡ some key)

  -- Where all items are read, the dict has the kids that it had and those of the items.
  collect_has :
      (kid : String) (items : List (KeyData Data)) (d : List (String × Key))
      → All IsReadable items
      → (is_some (get kid d) || any (is_for kid) items) ≡ true
      → (keys : List (String × Key)) × (key : Key) × (collect py_jwk items d ≡ some keys)
        × (get kid keys ≡ some key)
  unfolding collect is_for
  collect_has kid [] d r h = elim (Option-cases (get kid d)) [
    | inl n ↦ absurd (cc (rw n at h))
    | inr (key, g) ↦ (d, key, refl, g)
  ]
  collect_has kid (item ∷ items) d r h = elim (Option-cases item.kid) [
    | inl n ↦ rw (n) (collect_has kid items d r.1 (rw (n) at h))
    | inr (k, n) ↦
        let (key, b) = r.0 k n in
        rw (n, b)
          (collect_has kid items (insert k key d) r.1
            (carried kid k key d (any (is_for kid) items) (rw n at h)))
  ]

  refresh_page :
      (items : List (KeyData Data)) (done : ℕ) (cache : JwksCache Key) (keys : List (String × Key))
      → collect py_jwk items [] ≡ some keys
      → refresh py_jwk (page items) done cache
        ≡ (ok tt, record cache { keys = keys; fetched_at = some done })
  unfolding refresh store_keys
  refresh_page items done cache keys c = rw c

  key_at_found :
      (kid : String) (cache : JwksCache Key) (key : Key)
      → get kid cache.keys ≡ some key
      → key_at kid cache ≡ (ok key, cache)
  unfolding key_at key_or_unknown
  key_at_found kid cache key g = rw g

  missed :
      (kid : String) (now : ℕ) (cache : JwksCache Key)
      → must_refresh kid now cache ≡ false
      → get kid cache.keys ≡ none
      → true ≡ false
  unfolding must_refresh
  missed kid now cache h n =
      sym (or_right (older_than_ttl cache.fetched_at cache.ttl now) true refl) ∙ (rw n at h)

  -- A key that the auth service publishes is served, whatever the cache held and whatever the time,
  -- if PyJWT reads all keys of the answer.
  pub get_key-rotation :
      (kid : String) (items : List (KeyData Data)) (now done : ℕ) (cache : JwksCache Key)
      → All IsReadable items
      → any (is_for kid) items ≡ true
      → (key : Key) × (after : JwksCache Key) × (get_key py_jwk kid (page items) now done cache
          ≡ (ok key, after))
  unfolding get_key must_refresh
  get_key-rotation kid items now done cache r h =
      let (keys, key, c, g) = collect_has kid items [] r h in
      let after : JwksCache Key = record cache { keys = keys; fetched_at = some done } in
      elim (Bool-cases (must_refresh kid now cache)) [
        | inl old ↦ (
          key,
          after,
          rw (must_refresh, old)
              (ap (λ t. ((λ c. t) >> key_at kid) cache) (refresh_page items done cache keys c)
                ∙ key_at_found kid after key g),
        )
        | inr held ↦ elim (Option-cases (get kid cache.keys)) [
          | inl n ↦ absurd (cc (missed kid now cache held n))
          | inr (k, n) ↦ (k, cache, rw (must_refresh, held) (key_at_found kid cache k n))
        ]
      ]
