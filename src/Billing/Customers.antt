-- ===== src/Billing/Customers.antt =====
-- What a checkout leaves of the rows and of Stripe's customers.
use saas_genai_starter.Common.{
  ℕ, ◌≡◌, ◌⊎◌, inl, inr, refl, true, false, Bool-cases, Option, none, some, ◌∷◌, String, str_eq,
}
use saas_genai_starter.Core.Errors.{ApiError, bad_request}
use saas_genai_starter.Core.Action.{Action, Result, ok, err, crash, raise_if, or_raise, ◌>>=◌, ◌>>◌}
use saas_genai_starter.Tenants.Models.{Organization}
use saas_genai_starter.Tenants.Context.{TenantContext}
use saas_genai_starter.Billing.Events.{truthy, org_by_id, write_org}
use saas_genai_starter.Billing.Checkout.{
  BillingSettings, StripeCalls, World, can_manage, transaction, require_enabled, require_manager,
  get_client, organization_of, add_customer, customer_or_new, ensure_customer, open_session,
  session_params, start_session, create_checkout_session, attempt_checkout, checkout,
}

-- The row of the organization with the id of a Stripe customer that was just made.
abbrev pub linked_to : String → Organization → Organization
linked_to c org = record org { stripe_customer_id = some c }

module _ (id : ℕ) (w : World) where
  -- Nothing of the rows and the customers is changed.
  abbrev pub Kept : World → Type 0
  Kept after = (after.organizations ≡ w.organizations) × (after.customers ≡ w.customers)

  -- A customer is made for an organization that had none, and its id is on the row where the request
  -- succeeds.
  abbrev pub Added : {A : Type 0} → Result A × World → Type 0
  Added x =
      (org : Organization) × (c : String) × (org_by_id id w.organizations ≡ some org)
      × (org.stripe_customer_id ≡ none)
      × (x.1.customers ≡ record { id = c; organization_id = org.id } ∷ w.customers)
      × (x.1.organizations ≡ write_org (linked_to c org) w.organizations)

  abbrev pub Outcome : {A : Type 0} → Result A × World → Type 0
  Outcome {A} x = Kept x.1 ⊎ (((a : A) × (x.0 ≡ ok a)) × Added x)

  transaction-Outcome :
      {A : Type 0} (m : Action World A) → Outcome (m w) → Outcome (transaction m w)
  unfolding transaction
  transaction-Outcome m o = go (m w) o
    where
      go : {A : Type 0} (x : Result A × World) → Outcome x → Outcome (transaction (λ v. x) w)
      go (ok a, v) o = o
      go (err e, v) (inl k) = inl (refl, k.1)
      go (err e, v) (inr a) = absurd (cc (a.0.1))
      go (crash t, v) (inl k) = inl (refl, k.1)
      go (crash t, v) (inr a) = absurd (cc (a.0.1))

module _ (uuid_text : ℕ → String) (settings : BillingSettings) (stripe : StripeCalls)
    (url : String) where
  module _ (id : ℕ) (w : World) where
    added :
        (org : Organization) (customer : Option String)
        → stripe.sessions_create ≡ some url
        → org_by_id id w.organizations ≡ some org
        → org.stripe_customer_id ≡ none
        → Outcome id w (
            (add_customer customer org >>= λ o.
            open_session stripe.sessions_create (session_params uuid_text settings o))
              w)
    unfolding add_customer open_session session_params
    added org none s f n = inl (refl, refl)
    added org (some c) s f n = rw s (inr ((url, refl), (org, c, f, n, refl, refl)))

    ensured :
        (org : Organization) (held : Option String)
        → stripe.sessions_create ≡ some url
        → org_by_id id w.organizations ≡ some org
        → org.stripe_customer_id ≡ held
        → Outcome id w (
            (customer_or_new stripe org held >>= λ o.
            open_session stripe.sessions_create (session_params uuid_text settings o))
              w)
    unfolding customer_or_new open_session
    ensured org none s f n = added org stripe.customers_create s f n
    ensured org (some c) s f n = rw s (inl (refl, refl))

  -- A property of what a checkout comes to: of every refusal, and of every session begun.
  module _ (P : Result String × World → Type 0) (tenant : TenantContext) (w : World)
      (refused : (e : ApiError) → P (err e, w)) where
    sessions_begun :
        (org : Organization)
        → P (
            (ensure_customer stripe org >>= λ o.
            open_session stripe.sessions_create (session_params uuid_text settings o))
              w)
        → P (start_session uuid_text settings stripe org w)
    unfolding start_session get_client
    sessions_begun org begun = elim (Bool-cases (truthy settings.stripe_secret_key)) [
      | inl e ↦ rw e begun
      | inr e ↦ rw e (refused _)
    ]

    organization_found :
        (found : Option Organization)
        → ((org : Organization)
            → found ≡ some org
            → str_eq org.plan "pro" ≡ false
            → P (start_session uuid_text settings stripe org w))
        → P (
            ((λ v. (or_raise found (bad_request "Unknown organization") v)) >>= λ org.
            raise_if (str_eq org.plan "pro") (bad_request "Organization is already on the Pro plan")
            >> start_session uuid_text settings stripe org)
              w)
    organization_found none begun = refused _
    organization_found (some org) begun = elim (Bool-cases (str_eq org.plan "pro")) [
      | inl e ↦ rw e (refused _)
      | inr e ↦ rw e (begun org refl e)
    ]

    pub guarded_checkout :
        ((org : Organization)
          → settings.billing_enabled ≡ true
          → can_manage tenant.role ≡ true
          → org_by_id tenant.organization_id w.organizations ≡ some org
          → str_eq org.plan "pro" ≡ false
          → P (
              (ensure_customer stripe org >>= λ o.
              open_session stripe.sessions_create (session_params uuid_text settings o))
                w))
        → P (attempt_checkout uuid_text settings stripe tenant w)
    unfolding attempt_checkout require_enabled require_manager create_checkout_session
        organization_of
    guarded_checkout begun = elim (Bool-cases settings.billing_enabled) [
      | inr e ↦ rw e (refused _)
      | inl e ↦ elim (Bool-cases (can_manage tenant.role)) [
        | inr m ↦ rw (e, m) (refused _)
        | inl m ↦ elim (Bool-cases (truthy settings.stripe_price_pro)) [
          | inr p ↦ rw (e, m, p) (refused _)
          | inl p ↦
              rw (e, m, p)
                (organization_found (org_by_id tenant.organization_id w.organizations)
                  (λ org f n. sessions_begun org (begun org e m f n)))
        ]
      ]
    ]

  -- A checkout whose session Stripe opens, if it is asked to: it leaves rows and customers, or makes
  -- one customer for an organization without one.
  pub checkout-Outcome :
      (tenant : TenantContext) (w : World)
      → stripe.sessions_create ≡ some url
      → Outcome tenant.organization_id w (checkout uuid_text settings stripe tenant w)
  unfolding checkout
  checkout-Outcome tenant w s =
      transaction-Outcome tenant.organization_id w
        (attempt_checkout uuid_text settings stripe tenant)
        (guarded_checkout (Outcome tenant.organization_id w) tenant w (λ e. inl (refl, refl))
          (λ org e m f n. begun org f))
    where
      begun :
          (org : Organization)
          → org_by_id tenant.organization_id w.organizations ≡ some org
          → Outcome tenant.organization_id w (
              (ensure_customer stripe org >>= λ o.
              open_session stripe.sessions_create (session_params uuid_text settings o))
                w)
      begun org f =
          unfold ensure_customer in
          ensured tenant.organization_id w org org.stripe_customer_id s f refl
