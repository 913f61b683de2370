-- ===== src/Auth/Tokens.antt =====
-- `get_current_user` of apps/api/src/core/auth.py. PyJWT is an argument: `unverified_kid` stands for
-- `jwt.get_unverified_header(token).get("kid")`, with `none` for its exception, and `decode` for
-- `jwt.decode` under the audience and the issuer of the settings. The rest of the development only
-- compares user ids and has numbers for them: `subject_id` is that numbering of the texts.
use saas_genai_starter.Common.{
  ℕ, ◌+◌, Bool, ◌&&◌, ◌||◌, not, Option, none, some, [], ◌∷◌, map, String, ◌==◌, leb, str_eq, codes,
  or_else, if◌then◌else◌,
}
use saas_genai_starter.Core.Errors.{unauthorized}
use saas_genai_starter.Core.Action.{Action, Result, ok, err, raise, ◌>>=◌}
use saas_genai_starter.Chunking.Words.{Text}
use saas_genai_starter.Tenants.Service.{AuthenticatedUser}
use saas_genai_starter.Auth.Jwks.{Answer, JwksCache, get_key}

pub record Claims : Type 0 where
  pub sub : Option String
  pub email : Option String
  pub name : Option String

-- what `jwt.decode` returns, or which of its exceptions it raises
pub data Decoded : Type 0 where
  claims : Claims → Decoded
  expired invalid : Decoded

-- `str.lower` on Latin-1, in which a header is decoded
unfoldable pub lower_char : ℕ → ℕ
lower_char c =
    if (leb 65 c && leb c 90) || (leb 192 c && leb c 222 && not (c == 215)) then c + 32 else c

unfoldable pub lower : Text → Text
unfolding lower_char
lower = map lower_char

unfoldable pub same_chars : Text → Text → Bool
same_chars [] [] = Bool.true
same_chars (a ∷ s) (b ∷ t) = let rest = same_chars s t in (a == b) && rest
same_chars s t = Bool.false

-- `s.partition(" ")`, without the separator
unfoldable pub partition : Text → Text × Text
partition [] = ([], [])
partition (c ∷ s) = let rest = partition s in if c == b' ' then ([], s) else (c ∷ rest.0, rest.1)

unfoldable pub is_empty : Text → Bool
is_empty [] = Bool.true
is_empty (c ∷ s) = Bool.false

abbrev pub bearer_token_of : Text × Text → Option Text
bearer_token_of (scheme, token) =
    if not (same_chars (lower scheme) (codes "bearer")) || is_empty token then none else some token

-- the token of the Authorization header
unfoldable pub bearer_token : Option Text → Option Text
unfolding partition lower same_chars is_empty
bearer_token header = bearer_token_of (partition (or_else header []))

unfoldable pub user_of : (String → ℕ) → Claims → Result AuthenticatedUser
user_of subject_id c = elim c.sub [
  | none ↦ err (unauthorized "Missing subject claim")
  | some sub ↦
      if str_eq sub ""
      then err (unauthorized "Missing subject claim")
      else ok (record { user_id = subject_id sub; email = c.email; name = c.name })
]

unfoldable pub claimed : (String → ℕ) → Decoded → Result AuthenticatedUser
unfolding user_of
claimed subject_id (claims c) = user_of subject_id c
claimed subject_id expired = err (unauthorized "Token expired")
claimed subject_id invalid = err (unauthorized "Invalid token")

module _ {Data Key : Type 0} (py_jwk : Data → Option Key)
    (unverified_kid : Text → Option (Option String)) (decode : Text → Key → Decoded)
    (subject_id : String → ℕ) where
  unfoldable pub verified :
      Text → String → Answer Data → ℕ → ℕ → Action (JwksCache Key) AuthenticatedUser
  unfolding get_key claimed
  verified token kid answer now done = get_key py_jwk kid answer now done >>= λ key cache.
      (claimed subject_id (decode token key), cache)

  unfoldable pub with_kid :
      Text → Option (Option String) → Answer Data → ℕ → ℕ → Action (JwksCache Key) AuthenticatedUser
  unfolding verified
  with_kid token none answer now done = raise (unauthorized "Malformed token")
  with_kid token (some none) answer now done = raise (unauthorized "Missing key id")
  with_kid token (some (some kid)) answer now done =
      if str_eq kid ""
      then raise (unauthorized "Missing key id")
      else verified token kid answer now done

  unfoldable pub with_token :
      Option Text → Answer Data → ℕ → ℕ → Action (JwksCache Key) AuthenticatedUser
  unfolding with_kid
  with_token none answer now done = raise (unauthorized "Missing bearer token")
  with_token (some token) answer now done = with_kid token (unverified_kid token) answer now done

  unfoldable pub get_current_user :
      Option Text → Answer Data → ℕ → ℕ → Action (JwksCache Key) AuthenticatedUser
  unfolding bearer_token with_token
  get_current_user header = with_token (bearer_token header)
