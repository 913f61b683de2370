-- ===== src/Auth/Freshness.antt =====
-- What the key cache serves: keys of a fetch within the time to live, and none that the auth service
-- did not publish.
use saas_genai_starter.Common.{
  ℕ, ◌+◌, ◌≤◌, ◌≡◌, refl, sym, ap, subst, Bool, true, false, not, ◌||◌, Bool-cases, Option-cases,
  inl, inr, Option, none, some, List, [], ◌∷◌, String, str_eq, str_eq_iff, get, leb, leb→le,
  is_some, All, arith,
}
use saas_genai_starter.Core.Action.{Result, ok, err, crash, ◌>>◌}
use saas_genai_starter.Auth.Jwks.{
  KeyData, Answer, http_error, garbled, page, JwksCache, insert, collect, store_keys, refresh,
  older_than_ttl, must_refresh, key_or_unknown, key_at, get_key,
}

pub get-insert :
    {V : Type 0} (k : String) (v : V) (d : List (String × V)) → get k (insert k v d) ≡ some v
unfolding insert
get-insert k v [] = rw ((str_eq_iff k k).1 refl)
get-insert k v ((j, w) ∷ d) = elim (Bool-cases (str_eq k j)) [
  | inl e ↦ rw (e, e)
  | inr e ↦ rw (e, e, get-insert k v d)
]

pub get-insert_other :
    {V : Type 0} (k i : String) (v : V) (d : List (String × V))
    → is_some (get i d) ≡ true
    → is_some (get i (insert k v d)) ≡ true
unfolding insert
get-insert_other k i v [] h = absurd (cc)
get-insert_other k i v ((j, w) ∷ d) h = elim (Bool-cases (str_eq k j)) [
  | inl e ↦ elim (Bool-cases (str_eq i j)) [ inl f ↦ rw (e, f) | inr f ↦ rw (e, f) (rw f at h) ]
  | inr e ↦ elim (Bool-cases (str_eq i j)) [
    | inl f ↦ rw (e, f)
    | inr f ↦ rw (e, f) (get-insert_other k i v d (rw f at h))
  ]
]

not-false : (b : Bool) → not b ≡ false → b ≡ true
not-false true e = refl
not-false false e = absurd (cc)

or_false : (a b : Bool) → (a || b) ≡ false → a ≡ false
or_false true b e = absurd (cc)
or_false false b e = refl

some_inj : {A : Type 0} (a b : A) → some a ≡ some b → a ≡ b
some_inj a b e = cc

-- The items of a dict, each with a property of its key and value.
abbrev pub Entries : {V : Type 0} → (String → V → Type 0) → List (String × V) → Type 0
Entries P d = All (λ e. P e.0 e.1) d

insert-Entries :
    {V : Type 0} (P : String → V → Type 0) (k : String) (v : V) (d : List (String × V))
    → P k v
    → Entries P d
    → Entries P (insert k v d)
unfolding insert
insert-Entries P k v [] p h = (p, tt)
insert-Entries P k v ((j, w) ∷ d) p h = elim (Bool-cases (str_eq k j)) [
  | inl e ↦ rw e (subst (λ i. P i v) ((str_eq_iff k j).0 e) p, h.1)
  | inr e ↦ rw e (h.0, insert-Entries P k v d p h.1)
]

get-Entries :
    {V : Type 0} (P : String → V → Type 0) (k : String) (v : V) (d : List (String × V))
    → Entries P d
    → get k d ≡ some v
    → P k v
get-Entries P k v [] h e = absurd (cc)
get-Entries P k v ((j, w) ∷ d) h e = elim (Bool-cases (str_eq k j)) [
  | inl f ↦
      subst (λ i. P i v) (sym ((str_eq_iff k j).0 f)) (subst (P j) (some_inj w v (rw f at e)) h.0)
  | inr f ↦ get-Entries P k v d h.1 (rw f at e)
]

module _ {Data Key : Type 0} (py_jwk : Data → Option Key) (P : String → Key → Type 0) where
  -- What is published: the key of an item, under its "kid".
  abbrev pub Publishes : KeyData Data → Type 0
  Publishes item =
      (kid : String) (key : Key) → item.kid ≡ some kid → py_jwk item.body ≡ some key → P kid key

  -- A property of all published keys: it holds of each item of the answer.
  abbrev pub Answers : Answer Data → Type 0
  Answers http_error = Unit
  Answers garbled = Unit
  Answers (page items) = All Publishes items

  collect-Entries :
      (items : List (KeyData Data)) (d : List (String × Key)) (keys : List (String × Key))
      → All Publishes items
      → Entries P d
      → collect py_jwk items d ≡ some keys
      → Entries P keys
  unfolding collect
  collect-Entries [] d keys a h e = subst (Entries P) (some_inj d keys e) h
  collect-Entries (item ∷ items) d keys a h e = elim (Option-cases item.kid) [
    | inl n ↦ collect-Entries items d keys a.1 h (rw n at e)
    | inr (kid, n) ↦ elim (Option-cases (py_jwk item.body)) [
      | inl b ↦ absurd (cc (rw (n, b) at e))
      | inr (key, b) ↦
          collect-Entries items (insert kid key d) keys a.1
            (insert-Entries P kid key d (a.0 kid key n b) h) (rw (n, b) at e)
    ]
  ]

  -- The cache holds published keys only, and has been filled if it holds any.
  abbrev pub IsGenuine : JwksCache Key → Type 0
  IsGenuine cache = Entries P cache.keys

  stored :
      (done : ℕ) (found : Option (List (String × Key))) (cache : JwksCache Key)
      → ((keys : List (String × Key)) → found ≡ some keys → Entries P keys)
      → IsGenuine cache
      → IsGenuine (store_keys done found cache).1
  unfolding store_keys
  stored done none cache f g = g
  stored done (some keys) cache f g = f keys refl

  pub refresh-IsGenuine :
      (answer : Answer Data) (done : ℕ) (cache : JwksCache Key)
      → Answers answer
      → IsGenuine cache
      → IsGenuine (refresh py_jwk answer done cache).1
  unfolding refresh
  refresh-IsGenuine http_error done cache a g = g
  refresh-IsGenuine garbled done cache a g = g
  refresh-IsGenuine (page items) done cache a g =
      stored done (collect py_jwk items []) cache (λ keys e. collect-Entries items [] keys a tt e) g

module _ {Data Key : Type 0} (py_jwk : Data → Option Key) where
  key_or_unknown_lem :
      (found : Option Key) (cache : JwksCache Key) (key : Key) (after : JwksCache Key)
      → key_or_unknown found cache ≡ (ok key, after)
      → (found ≡ some key) × (cache ≡ after)
  unfolding key_or_unknown
  key_or_unknown_lem none cache key after e = absurd (cc (ap (λ x. x.0) e))
  key_or_unknown_lem (some k) cache key after e = (cc (ap (λ x. x.0) e), ap (λ x. x.1) e)

  key_at_lem :
      (kid : String) (cache : JwksCache Key) (key : Key) (after : JwksCache Key)
      → key_at kid cache ≡ (ok key, after)
      → (get kid after.keys ≡ some key) × (cache ≡ after)
  unfolding key_at
  key_at_lem kid cache key after e =
      let (f, s) = key_or_unknown_lem (get kid cache.keys) cache key after e in
      (subst (λ c. get kid c.keys ≡ some key) s f, s)

  then_ok :
      (kid : String) (tried : Result (Unit {0}) × JwksCache Key) (cache : JwksCache Key) (key : Key)
      (after : JwksCache Key)
      → ((λ c. tried) >> key_at kid) cache ≡ (ok key, after)
      → (get kid after.keys ≡ some key) × (tried ≡ (ok tt, after))
  then_ok kid (ok u, c) cache key after e =
      let (g, s) = key_at_lem kid c key after e in (g, ap (λ x. (ok tt, x)) s)
  then_ok kid (err x, c) cache key after e = absurd (cc (ap (λ x. x.0) e))
  then_ok kid (crash x, c) cache key after e = absurd (cc (ap (λ x. x.0) e))

  store_keys_time :
      (done : ℕ) (found : Option (List (String × Key))) (cache after : JwksCache Key)
      → store_keys done found cache ≡ (ok tt, after)
      → after.fetched_at ≡ some done
  unfolding store_keys
  store_keys_time done none cache after e = absurd (cc (ap (λ x. x.0) e))
  store_keys_time done (some keys) cache after e = sym (ap (λ x. x.1.fetched_at) e)

  refresh_time :
      (answer : Answer Data) (done : ℕ) (cache after : JwksCache Key)
      → refresh py_jwk answer done cache ≡ (ok tt, after)
      → after.fetched_at ≡ some done
  unfolding refresh
  refresh_time http_error done cache after e = absurd (cc (ap (λ x. x.0) e))
  refresh_time garbled done cache after e = absurd (cc (ap (λ x. x.0) e))
  refresh_time (page items) done cache after e =
      store_keys_time done (collect py_jwk items []) cache after e

  abbrev pub IsFresh : ℕ → JwksCache Key → Type 0
  IsFresh now cache = (t : ℕ) × (cache.fetched_at ≡ some t) × (now ≤ t + cache.ttl)

  young :
      (at : Option ℕ) (ttl now : ℕ)
      → older_than_ttl at ttl now ≡ false
      → (t : ℕ) × (at ≡ some t) × (now ≤ t + ttl)
  unfolding older_than_ttl
  young none ttl now e = absurd (cc)
  young (some t) ttl now e = (t, refl, leb→le now (t + ttl) (not-false (leb now (t + ttl)) e))

  refreshed :
      (kid : String) (answer : Answer Data) (now done : ℕ) (cache : JwksCache Key) (key : Key)
      (after : JwksCache Key)
      → now ≤ done
      → (refresh py_jwk answer done >> key_at kid) cache ≡ (ok key, after)
      → (get kid after.keys ≡ some key)
        × IsFresh now after
        × (after ≡ (refresh py_jwk answer done cache).1)
  refreshed kid answer now done cache key after h e =
      let (g, r) = then_ok kid (refresh py_jwk answer done cache) cache key after e in
      (g, (done, refresh_time answer done cache after r, omega (arith, h)), sym (ap (λ x. x.1) r))

  module _ (P : String → Key → Type 0) where
    get_key_refreshing :
        (kid : String) (answer : Answer Data) (now done : ℕ) (cache : JwksCache Key) (key : Key)
        (after : JwksCache Key)
        → now ≤ done
        → Answers py_jwk P answer
        → IsGenuine py_jwk P cache
        → (refresh py_jwk answer done >> key_at kid) cache ≡ (ok key, after)
        → P kid key × IsFresh now after × IsGenuine py_jwk P after
    get_key_refreshing kid answer now done cache key after h a g e =
        let (found, fresh, same) = refreshed kid answer now done cache key after h e in
        let genuine : IsGenuine py_jwk P after =
          subst (IsGenuine py_jwk P) (sym same)
            (refresh-IsGenuine py_jwk P answer done cache a g) in
        (get-Entries P kid key after.keys genuine found, fresh, genuine)

    -- Where the key cache serves a key for a kid: the auth service published that key under that kid
    -- (whatever `P` holds of all published keys holds of it), the fetch that brought it is at most the
    -- time to live ago at the time of the call, and the cache goes on holding published keys only.
    pub get_key-IsFresh :
        (kid : String) (answer : Answer Data) (now done : ℕ) (cache : JwksCache Key) (key : Key)
        (after : JwksCache Key)
        → now ≤ done
        → Answers py_jwk P answer
        → IsGenuine py_jwk P cache
        → get_key py_jwk kid answer now done cache ≡ (ok key, after)
        → P kid key × IsFresh now after × IsGenuine py_jwk P after
    unfolding get_key
    get_key-IsFresh kid answer now done cache key after h a g e =
        elim (Bool-cases (must_refresh kid now cache)) [
          | inl old ↦
              get_key_refreshing kid answer now done cache key after h a g
                (rw (must_refresh, old) at e)
          | inr held ↦
              let (found, same) = key_at_lem kid cache key after (rw (must_refresh, held) at e) in
              subst (λ c. P kid key × IsFresh now c × IsGenuine py_jwk P c) same
                (
                  get-Entries P kid key cache.keys g (rw (sym same) at found),
                  young cache.fetched_at cache.ttl now (or_false _ _ held),
                  g,
                )
        ]
