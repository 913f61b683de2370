-- ===== src/Billing/Orphans.antt =====
-- A checkout whose session Stripe refuses after it has made the customer.
use saas_genai_starter.Common.{
  ℕ, zero, suc, ◌+◌, ◌≡◌, refl, ap, ◌∙◌, true, false, Option, none, some, List, ◌∷◌, String, str_eq,
  ==_iff, arith,
}
use saas_genai_starter.Core.Errors.{bad_request}
use saas_genai_starter.Core.Action.{crash, or_raise, raise_if, ◌>>=◌, ◌>>◌}
use saas_genai_starter.Tenants.Models.{Organization}
use saas_genai_starter.Tenants.Context.{TenantContext}
use saas_genai_starter.Billing.Events.{truthy, org_by_id, write_org}
use saas_genai_starter.Billing.Checkout.{
  BillingSettings, StripeCalls, World, can_manage, transaction, require_enabled, require_manager,
  get_client, organization_of, add_customer, customer_or_new, ensure_customer, open_session,
  session_params, start_session, create_checkout_session, attempt_checkout, checkout,
}
use saas_genai_starter.Billing.Once.{customers_of}
use saas_genai_starter.Billing.Customers.{linked_to}

-- The guards of a checkout pass, and the organization has no customer yet.
pub record IsUpgradable (settings : BillingSettings) (tenant : TenantContext) (org : Organization)
    (rows : List Organization) : Type 0 where
  pub enabled : settings.billing_enabled ≡ true
  pub manager : can_manage tenant.role ≡ true
  pub priced : truthy settings.stripe_price_pro ≡ true
  pub keyed : truthy settings.stripe_secret_key ≡ true
  pub found : org_by_id tenant.organization_id rows ≡ some org
  pub not_pro : str_eq org.plan "pro" ≡ false
  pub bare : org.stripe_customer_id ≡ none

module _ (uuid_text : ℕ → String) (settings : BillingSettings) (stripe : StripeCalls)
    (tenant : TenantContext) (org : Organization) (c : String) where
  abbrev with_customer : World → World
  with_customer w = record w {
    customers = record { id = c; organization_id = org.id } ∷ w.customers;
  }

  made : World → World
  made w = record w {
    organizations = write_org (linked_to c org) w.organizations;
    customers = record { id = c; organization_id = org.id } ∷ w.customers;
  }

  session_refused :
      (created session held : Option String) (w : World)
      → created ≡ some c
      → session ≡ none
      → held ≡ none
      → ((customer_or_new (record stripe { customers_create = created }) org held >>= λ o.
            open_session session (session_params uuid_text settings o))
          w)
        ≡ (crash "StripeError", made w)
  unfolding customer_or_new add_customer open_session made
  session_refused created session held w a b n = rw (a, b, n) refl

  start_refused :
      (w : World)
      → IsUpgradable settings tenant org w.organizations
      → stripe.customers_create ≡ some c
      → stripe.sessions_create ≡ none
      → start_session uuid_text settings stripe org w ≡ (crash "StripeError", made w)
  unfolding start_session get_client ensure_customer made
  start_refused w g a b = rw g.keyed (
      session_refused stripe.customers_create stripe.sessions_create org.stripe_customer_id w a b
        g.bare)

  found_refused :
      (found : Option Organization) (w : World)
      → IsUpgradable settings tenant org w.organizations
      → stripe.customers_create ≡ some c
      → stripe.sessions_create ≡ none
      → found ≡ some org
      → (((λ v. (or_raise found (bad_request "Unknown organization") v)) >>= λ o.
            raise_if (str_eq o.plan "pro") (bad_request "Organization is already on the Pro plan")
            >> start_session uuid_text settings stripe o)
          w)
        ≡ (crash "StripeError", made w)
  found_refused found w g a b f = rw (f, g.not_pro) (start_refused w g a b)

  create_refused :
      (w : World)
      → IsUpgradable settings tenant org w.organizations
      → stripe.customers_create ≡ some c
      → stripe.sessions_create ≡ none
      → create_checkout_session uuid_text settings stripe tenant w ≡ (crash "StripeError", made w)
  unfolding create_checkout_session organization_of made
  create_refused w g a b =
      rw g.priced (found_refused (org_by_id tenant.organization_id w.organizations) w g a b g.found)

  attempt_refused :
      (w : World)
      → IsUpgradable settings tenant org w.organizations
      → stripe.customers_create ≡ some c
      → stripe.sessions_create ≡ none
      → attempt_checkout uuid_text settings stripe tenant w ≡ (crash "StripeError", made w)
  unfolding attempt_checkout require_enabled require_manager made
  attempt_refused w g a b = rw (g.enabled, g.manager) (create_refused w g a b)

  orphaned :
      (w : World)
      → IsUpgradable settings tenant org w.organizations
      → stripe.customers_create ≡ some c
      → stripe.sessions_create ≡ none
      → checkout uuid_text settings stripe tenant w ≡ (crash "StripeError", with_customer w)
  unfolding checkout transaction made
  orphaned w g a b = ap (λ x. transaction (λ v. x) w) (attempt_refused w g a b)

  -- `n` checkouts, one after the other
  abbrev pub again : ℕ → World → World
  again zero w = w
  again (suc n) w = again n (checkout uuid_text settings stripe tenant w).1

  -- If the guards of a checkout pass, for an organization without a customer, and Stripe makes the
  -- customer and then refuses the session, every retry makes one more customer of the organization:
  -- the raise rolls back the id on the row.
  pub checkout-orphans :
      (n : ℕ) (w : World)
      → IsUpgradable settings tenant org w.organizations
      → stripe.customers_create ≡ some c
      → stripe.sessions_create ≡ none
      → customers_of org.id (again n w).customers ≡ n + customers_of org.id w.customers
  unfolding customers_of
  checkout-orphans zero w g a b = omega arith
  checkout-orphans (suc n) w g a b =
      ap (λ x. customers_of org.id (again n x.1).customers) (orphaned w g a b)
      ∙ checkout-orphans n (with_customer w) g a b
      ∙ one_more
    where
      one_more :
          n + customers_of org.id (with_customer w).customers
          ≡ suc n + customers_of org.id w.customers
      one_more = rw ((==_iff org.id org.id).1 refl) (omega arith)
