-- ===== src/Billing/Checkout.antt =====
-- The Stripe sessions and the webhook's door: `BillingService` and the routes of
-- apps/api/src/domains/billing/router.py. Stripe is not modelled: what its calls answer in one request
-- is an argument, with `none` for an exception. What Stripe has then made outlives a rollback.
use saas_genai_starter.Common.{
  ℕ, Bool, true, false, not, Option, none, some, List, ◌∷◌, String, ◌+s◌, str_eq,
}
use saas_genai_starter.Core.Errors.{ApiError, api_error, bad_request, forbidden, not_found}
use saas_genai_starter.Core.Action.{
  Action, ok, err, crash, pure, raise, raise_if, or_raise, ◌>>=◌, ◌>>◌,
}
use saas_genai_starter.Tenants.Models.{Role, owner, admin, Organization}
use saas_genai_starter.Tenants.Context.{TenantContext}
use saas_genai_starter.Billing.Events.{truthy, org_by_id, write_org}

pub record BillingSettings : Type 0 where
  pub billing_enabled : Bool
  pub stripe_secret_key : Option String
  pub stripe_webhook_secret : Option String
  pub stripe_price_pro : Option String
  pub web_base_url : String

-- The answers of Stripe's calls in one request: a customer's id, the URLs of the sessions.
pub record StripeCalls : Type 0 where
  pub customers_create : Option String
  pub sessions_create : Option String
  pub portal_create : Option String

pub record Customer : Type 0 where
  pub id : String
  pub organization_id : ℕ

pub record SessionParams : Type 0 where
  pub customer : Option String
  pub price : Option String
  pub client_reference_id : String
  pub success_url : String
  pub cancel_url : String

-- The rows of the organizations, and the customers and checkout sessions that Stripe has made, the
-- newest first.
pub record World : Type 0 where
  pub organizations : List Organization
  pub customers : List Customer
  pub sessions : List SessionParams

abbrev pub billing_misconfigured : ApiError
billing_misconfigured =
    api_error 503 "billing_misconfigured" "Billing is enabled but Stripe is not fully configured"

-- `role in ("owner", "admin")`
unfoldable pub can_manage : Role → Bool
can_manage owner = true
can_manage admin = true
can_manage r = false

-- The session of a request: a raise rolls the rows back, and Stripe keeps what it has made.
unfoldable pub transaction : {A : Type 0} → Action World A → Action World A
transaction m w =
    let (r, w') = m w in
    elim r [
      | ok a ↦ (ok a, w')
      | err e ↦ (err e, record w' { organizations = w.organizations })
      | crash t ↦ (crash t, record w' { organizations = w.organizations })
    ]

unfoldable pub require_enabled : BillingSettings → Action World (Unit {0})
require_enabled settings =
    raise_if (not settings.billing_enabled) (not_found "Billing is not enabled")

unfoldable pub require_manager : TenantContext → Action World (Unit {0})
unfolding can_manage
require_manager tenant =
    raise_if (not (can_manage tenant.role)) (forbidden "Only owners and admins can manage billing")

-- A request makes its own service, which has no client yet.
unfoldable pub get_client : BillingSettings → Action World (Unit {0})
get_client settings = raise_if (not (truthy settings.stripe_secret_key)) billing_misconfigured

unfoldable pub organization_of : ℕ → Action World Organization
organization_of id w =
    or_raise (org_by_id id w.organizations) (bad_request "Unknown organization") w

-- `client.customers.create`, whose new id no other row has, and the id on the row of the organization
unfoldable pub add_customer : Option String → Organization → Action World Organization
add_customer none org w = (crash "StripeError", w)
add_customer (some c) org w = (
  ok (record org { stripe_customer_id = some c }),
  record w {
    organizations = write_org (record org { stripe_customer_id = some c }) w.organizations;
    customers = record { id = c; organization_id = org.id } ∷ w.customers;
  },
)

unfoldable pub customer_or_new :
    StripeCalls → Organization → Option String → Action World Organization
unfolding add_customer
customer_or_new stripe org none = add_customer stripe.customers_create org
customer_or_new stripe org (some c) = pure org

unfoldable pub ensure_customer : StripeCalls → Organization → Action World Organization
unfolding customer_or_new
ensure_customer stripe org = customer_or_new stripe org org.stripe_customer_id

-- `client.checkout.sessions.create`
unfoldable pub open_session : Option String → SessionParams → Action World String
open_session none params w = (crash "StripeError", w)
open_session (some url) params w = (ok url, record w { sessions = params ∷ w.sessions })

module _ (uuid_text : ℕ → String) where
  unfoldable pub session_params : BillingSettings → Organization → SessionParams
  session_params settings org = record {
    customer = org.stripe_customer_id;
    price = settings.stripe_price_pro;
    client_reference_id = uuid_text org.id;
    success_url = settings.web_base_url +s "/settings?billing=success";
    cancel_url = settings.web_base_url +s "/settings?billing=canceled";
  }

  unfoldable pub start_session : BillingSettings → StripeCalls → Organization → Action World String
  unfolding get_client ensure_customer open_session session_params
  start_session settings stripe org =
      get_client settings
      >> (ensure_customer stripe org >>= λ o.
          open_session stripe.sessions_create (session_params settings o))

  unfoldable pub create_checkout_session :
      BillingSettings → StripeCalls → TenantContext → Action World String
  unfolding organization_of start_session
  create_checkout_session settings stripe tenant =
      raise_if (not (truthy settings.stripe_price_pro)) billing_misconfigured
      >> (organization_of tenant.organization_id >>= λ org.
          raise_if (str_eq org.plan "pro") (bad_request "Organization is already on the Pro plan")
          >> start_session settings stripe org)

  unfoldable pub attempt_checkout :
      BillingSettings → StripeCalls → TenantContext → Action World String
  unfolding require_enabled require_manager create_checkout_session
  attempt_checkout settings stripe tenant =
      require_enabled settings
      >> (require_manager tenant >> create_checkout_session settings stripe tenant)

  -- `POST /billing/checkout`
  unfoldable pub checkout : BillingSettings → StripeCalls → TenantContext → Action World String
  unfolding transaction attempt_checkout
  checkout settings stripe tenant = transaction (attempt_checkout settings stripe tenant)

unfoldable pub portal_url : Option String → Action World String
portal_url none w = (crash "StripeError", w)
portal_url (some url) w = (ok url, w)

unfoldable pub portal_for : BillingSettings → StripeCalls → Option String → Action World String
unfolding get_client portal_url
portal_for settings stripe none = raise (bad_request "No billing account yet — upgrade first")
portal_for settings stripe (some c) = get_client settings >> portal_url stripe.portal_create

unfoldable pub create_portal_session :
    BillingSettings → StripeCalls → TenantContext → Action World String
unfolding organization_of portal_for
create_portal_session settings stripe tenant = organization_of tenant.organization_id >>= λ org.
    portal_for settings stripe org.stripe_customer_id

-- `POST /billing/portal`
unfoldable pub portal : BillingSettings → StripeCalls → TenantContext → Action World String
unfolding transaction require_enabled require_manager create_portal_session
portal settings stripe tenant = transaction (
    require_enabled settings
    >> (require_manager tenant >> create_portal_session settings stripe tenant))

-- `BillingOut`
pub record BillingOut : Type 0 where
  pub enabled : Bool
  pub plan : String
  pub subscription_status : Option String
  pub can_manage : Bool

unfoldable pub billing_out : BillingSettings → TenantContext → Organization → BillingOut
unfolding can_manage
billing_out settings tenant org = record {
  enabled = settings.billing_enabled;
  plan = org.plan;
  subscription_status = org.subscription_status;
  can_manage = can_manage tenant.role;
}

-- `GET /billing`
unfoldable pub get_billing : BillingSettings → TenantContext → Action World BillingOut
unfolding billing_out
get_billing settings tenant w =
    (or_raise (org_by_id tenant.organization_id w.organizations)
          (not_found "Organization not found")
        >>= λ org. pure (billing_out settings tenant org))
      w
