-- ===== src/Core/Crypto.antt =====
-- apps/api/src/core/crypto.py. Fernet, of the cryptography package, is an argument.
use saas_genai_starter.Common.{Option, none, some, String, str_eq, if◌then◌else◌}

-- A cipher that a key makes: `decrypt` is `none` where it raises InvalidToken.
pub record Fernet : Type 0 where
  pub encrypt : String → String
  pub decrypt : String → Option String

-- `settings.secret_encryption_key`, and `Fernet(key)`, with `none` for its ValueError on a malformed key.
pub record Secrets : Type 0 where
  pub secret_encryption_key : Option String
  pub fernet : String → Option Fernet

-- A value, or the name of the exception that is raised in its place.
pub data Attempt {ℓ} (A : Type ℓ) : Type ℓ where
  done : A → Attempt A
  failed : String → Attempt A

abbrev pub and_then {ℓ κ} : {A : Type ℓ} {B : Type κ} → Attempt A → (A → Attempt B) → Attempt B
and_then (done a) f = f a
and_then (failed t) f = failed t

-- a value that may be missing as an exception raises
abbrev pub or_value_error {ℓ} : {A : Type ℓ} → Option A → Attempt A
or_value_error none = failed "ValueError"
or_value_error (some a) = done a

unfoldable pub fernet_of : (String → Option Fernet) → Option String → Attempt Fernet
fernet_of make none = failed "EncryptionNotConfigured"
fernet_of make (some key) =
    if str_eq key "" then failed "EncryptionNotConfigured" else or_value_error (make key)

unfoldable pub encrypt_secret : Secrets → String → Attempt String
unfolding fernet_of
encrypt_secret secrets text =
    and_then (fernet_of secrets.fernet secrets.secret_encryption_key) (λ f. done (f.encrypt text))

unfoldable pub decrypt_secret : Secrets → String → Attempt String
unfolding fernet_of
decrypt_secret secrets token =
    and_then (fernet_of secrets.fernet secrets.secret_encryption_key)
      (λ f. or_value_error (f.decrypt token))
