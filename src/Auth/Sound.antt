-- ===== src/Auth/Sound.antt =====
-- Who gets through `get_current_user`: the bearers of tokens that PyJWT verifies under a published key.
use saas_genai_starter.Common.{
  ℕ, ◌≤◌, ◌≡◌, refl, ap, subst, Bool-cases, inl, inr, Option, none, some, String, str_eq,
}
use saas_genai_starter.Core.Action.{Result, ok, err, crash, ◌>>=◌}
use saas_genai_starter.Chunking.Words.{Text}
use saas_genai_starter.Tenants.Service.{AuthenticatedUser}
use saas_genai_starter.Auth.Jwks.{Answer, JwksCache, get_key}
use saas_genai_starter.Auth.Freshness.{Answers, IsGenuine, IsFresh, get_key-IsFresh}
use saas_genai_starter.Auth.Tokens.{
  Claims, Decoded, claims, expired, invalid, user_of, claimed, verified, with_kid, with_token,
  bearer_token,
}

user_of_lem :
    (subject_id : String → ℕ) (sub : Option String) (c : Claims) (u : AuthenticatedUser)
    → c.sub ≡ sub
    → user_of subject_id c ≡ ok u
    → (s : String) × (c.sub ≡ some s) × (u.user_id ≡ subject_id s)
unfolding user_of
user_of_lem subject_id none c u s e = absurd (cc (rw s at e))
user_of_lem subject_id (some x) c u s e = elim (Bool-cases (str_eq x "")) [
  | inl b ↦ absurd (cc (rw (s, b) at e))
  | inr b ↦ (x, s, cc (ok_user (rw (s, b) at e)))
]
  where
    ok_user : {a b : AuthenticatedUser} → ok a ≡ ok b → a.user_id ≡ b.user_id
    ok_user e = cc

claimed_lem :
    (subject_id : String → ℕ) (d : Decoded) (u : AuthenticatedUser)
    → claimed subject_id d ≡ ok u
    → (c : Claims) × (s : String) × (d ≡ claims c) × (c.sub ≡ some s) × (u.user_id ≡ subject_id s)
unfolding claimed
claimed_lem subject_id (claims c) u e =
    let (s, f, g) = user_of_lem subject_id c.sub c u refl e in (c, s, refl, f, g)
claimed_lem subject_id expired u e = absurd (cc)
claimed_lem subject_id invalid u e = absurd (cc)

module _ {Data Key : Type 0} (py_jwk : Data → Option Key)
    (unverified_kid : Text → Option (Option String)) (decode : Text → Key → Decoded)
    (subject_id : String → ℕ) (P : String → Key → Type 0) where
  -- What stands behind an authenticated user.
  abbrev pub Evidence : Text → ℕ → AuthenticatedUser → JwksCache Key → Type 0
  Evidence token now u after =
      (kid : String) × (key : Key) × (c : Claims) × (sub : String) × (unverified_kid token
        ≡ some (some kid))
      × P kid key
      × IsFresh py_jwk now after
      × (decode token key ≡ claims c)
      × (c.sub ≡ some sub)
      × (u.user_id ≡ subject_id sub)

  claimed_after :
      (token : Text) (kid : String) (answer : Answer Data) (now done : ℕ) (cache : JwksCache Key)
      (served : Result Key × JwksCache Key) (u : AuthenticatedUser) (after : JwksCache Key)
      → now ≤ done
      → Answers py_jwk P answer
      → IsGenuine py_jwk P cache
      → unverified_kid token ≡ some (some kid)
      → get_key py_jwk kid answer now done cache ≡ served
      → ((λ c. served) >>= λ key s. (claimed subject_id (decode token key), s)) cache
        ≡ (ok u, after)
      → Evidence token now u after
  claimed_after token kid answer now done cache (ok key, c) u after h a g k s e =
      let (p, fresh, genuine) = get_key-IsFresh py_jwk P kid answer now done cache key c h a g s in
      let (cl, sub, d, f, i) = claimed_lem subject_id (decode token key) u (ap (λ x. x.0) e) in
      (kid, key, cl, sub, k, p, subst (IsFresh py_jwk now) (ap (λ x. x.1) e) fresh, d, f, i)
  claimed_after token kid answer now done cache (err x, c) u after h a g k s e =
      absurd (cc (ap (λ x. x.0) e))
  claimed_after token kid answer now done cache (crash x, c) u after h a g k s e =
      absurd (cc (ap (λ x. x.0) e))

  with_kid_lem :
      (token : Text) (kid : Option (Option String)) (answer : Answer Data) (now done : ℕ)
      (cache : JwksCache Key) (u : AuthenticatedUser) (after : JwksCache Key)
      → now ≤ done
      → Answers py_jwk P answer
      → IsGenuine py_jwk P cache
      → unverified_kid token ≡ kid
      → with_kid py_jwk unverified_kid decode subject_id token kid answer now done cache
        ≡ (ok u, after)
      → Evidence token now u after
  unfolding with_kid verified
  with_kid_lem token none answer now done cache u after h a g k e = absurd (cc (ap (λ x. x.0) e))
  with_kid_lem token (some none) answer now done cache u after h a g k e =
      absurd (cc (ap (λ x. x.0) e))
  with_kid_lem token (some (some kid)) answer now done cache u after h a g k e =
      elim (Bool-cases (str_eq kid "")) [
        | inl b ↦ absurd (cc (ap (λ x. x.0) (rw b at e)))
        | inr b ↦
            claimed_after token kid answer now done cache (get_key py_jwk kid answer now done cache)
              u after h a g k refl (rw b at e)
      ]

  pub with_token_lem :
      (header : Option Text) (token : Option Text) (answer : Answer Data) (now done : ℕ)
      (cache : JwksCache Key) (u : AuthenticatedUser) (after : JwksCache Key)
      → now ≤ done
      → Answers py_jwk P answer
      → IsGenuine py_jwk P cache
      → bearer_token header ≡ token
      → with_token py_jwk unverified_kid decode subject_id token answer now done cache
        ≡ (ok u, after)
      → (t : Text) × (bearer_token header ≡ some t) × Evidence t now u after
  unfolding with_token
  with_token_lem header none answer now done cache u after h a g b e = absurd (cc (ap (λ x. x.0) e))
  with_token_lem header (some t) answer now done cache u after h a g b e =
      (t, b, with_kid_lem t (unverified_kid t) answer now done cache u after h a g refl e)
