-- ===== src/Core/Action.antt =====
-- A database action: the tables it leaves come back with its result, also where it raises.
use saas_genai_starter.Common.{Bool, true, false, Option, none, some, String, if◌then◌else◌}
use saas_genai_starter.Core.Errors.{ApiError}

-- `crash` is any exception that is no `ApiError`.
pub data Result {ℓ} (A : Type ℓ) : Type ℓ where
  ok : A → Result A
  err : ApiError → Result A
  crash : String → Result A

abbrev pub Action {ℓ κ} : Type ℓ → Type κ → Type (ℓ ⊔ κ)
Action S A = S → Result A × S

module _ {ℓ κ} {S : Type ℓ} {A : Type κ} where
  abbrev pub pure : A → Action S A
  pure a s = (ok a, s)

  abbrev pub raise : ApiError → Action S A
  raise e s = (err e, s)

  abbrev pub gets : (S → A) → Action S A
  gets f s = (ok (f s), s)

  -- `if x is None: raise e`
  abbrev pub or_raise : Option A → ApiError → Action S A
  or_raise none e s = (err e, s)
  or_raise (some a) e s = (ok a, s)

abbrev pub raise_if {ℓ} : {S : Type ℓ} → Bool → ApiError → Action S (Unit {0})
raise_if c e s = (if c then err e else ok tt, s)

abbrev pub modify {ℓ} : {S : Type ℓ} → (S → S) → Action S (Unit {0})
modify f s = (ok tt, f s)

-- `if c: m`
abbrev pub when {ℓ} : {S : Type ℓ} → Bool → Action S (Unit {0}) → Action S (Unit {0})
when true m s = m s
when false m s = (ok tt, s)

infixl 5 ◌>>=◌ ◌>>◌
abbrev pub ◌>>=◌ {ℓ κ μ} :
    {S : Type ℓ} {A : Type κ} {B : Type μ} → Action S A → (A → Action S B) → Action S B
◌>>=◌ m f s =
    let (r, s') = m s in elim r [ ok a ↦ f a s' | err e ↦ (err e, s') | crash t ↦ (crash t, s') ]

abbrev pub ◌>>◌ {ℓ κ μ} :
    {S : Type ℓ} {A : Type κ} {B : Type μ} → Action S A → Action S B → Action S B
◌>>◌ m k s = ◌>>=◌ m (λ _. k) s

-- A request commits where its handler returns; a raise closes the session, which rolls back.
abbrev pub request {ℓ κ} : {S : Type ℓ} {A : Type κ} → Action S A → Action S A
request m s =
    let (r, s') = m s in elim r [ ok a ↦ (ok a, s') | err e ↦ (err e, s) | crash t ↦ (crash t, s) ]
