-- ===== src/Billing/Tests.antt =====
-- The theorems on the webhook, at concrete deliveries.
use saas_genai_starter.Core.Action.{ok}
use saas_genai_starter.Tenants.Context.{TenantContext}
use saas_genai_starter.Common.{
  Bool, str_eq, ◌+◌, ℕ, ◌≡◌, refl, true, false, Option, none, some, [], ◌∷◌, String,
}
use saas_genai_starter.Tenants.Models.{owner, Organization}
use saas_genai_starter.Billing.Events.{
  Object, checkout_completed, org_by_id, write_org, subscription_updated, subscription_deleted,
  org_for_customer, plan_of, handle_event,
}
use saas_genai_starter.Billing.Checkout.{
  BillingSettings, StripeCalls, SessionParams, World, can_manage, transaction, require_enabled,
  require_manager, get_client, organization_of, add_customer, customer_or_new, ensure_customer,
  open_session, session_params, start_session, create_checkout_session, attempt_checkout, checkout,
}
use saas_genai_starter.Billing.Webhook.{Json, object, Answered, stripe_webhook-Verified}
use saas_genai_starter.Billing.Once.{Requested, customers_of}
use saas_genai_starter.Billing.Upgrade.{completed, checkout_upgrades}
use saas_genai_starter.Billing.Orphans.{IsUpgradable, again, checkout-orphans}
use saas_genai_starter.Billing.Sync.{IsConsistent}
use saas_genai_starter.Billing.Replay.{sync_event, last_delivery_decides}
use saas_genai_starter.Billing.Converge.{plan_for, out_of_order_diverges}

abbrev no_uuid : String → Option ℕ
no_uuid s = none

abbrev acme : Organization
acme = record {
  id = 1;
  name = "Acme";
  rate_limit_rpm_override = none;
  rate_limit_tpd_override = none;
  plan = "free";
  stripe_customer_id = some "cus_1";
  stripe_subscription_id = none;
  subscription_status = none;
  created_at = 0;
}

abbrev updated : Object
updated = record {
  id = some "sub_1";
  client_reference_id = none;
  customer = some "cus_1";
  subscription = none;
  status = some "active";
}

abbrev deleted : Object
deleted = record updated { status = some "canceled" }

acme-IsConsistent : IsConsistent acme
unfolding plan_of
acme-IsConsistent = record { plan_follows = refl; free_unsubscribed = λ e. refl }

last_delivery_decides_example :
    handle_event no_uuid
      (sync_event true deleted)
      (handle_event no_uuid (sync_event false updated) (acme ∷ []))
    ≡ handle_event no_uuid (sync_event true deleted) (acme ∷ [])
last_delivery_decides_example =
    last_delivery_decides no_uuid false true updated deleted (acme ∷ []) refl

out_of_order_diverges_example :
    (plan_for no_uuid (some "cus_1") (
        handle_event no_uuid
          (subscription_updated updated)
          (handle_event no_uuid (subscription_deleted deleted) (acme ∷ [])))
      ≡ some "pro")
    × (plan_for no_uuid (some "cus_1") (
          handle_event no_uuid
            (subscription_deleted deleted)
            (handle_event no_uuid (subscription_updated updated) (acme ∷ [])))
        ≡ some "free")
unfolding org_for_customer plan_of
out_of_order_diverges_example =
    out_of_order_diverges no_uuid updated deleted (acme ∷ []) acme refl refl refl

abbrev settings : BillingSettings
settings = record {
  billing_enabled = true;
  stripe_secret_key = some "sk";
  stripe_webhook_secret = some "whsec";
  stripe_price_pro = some "price_1";
  web_base_url = "http://localhost:3000";
}

abbrev opening : StripeCalls
opening = record {
  customers_create = some "cus_2";
  sessions_create = some "https://pay";
  portal_create = none;
}

abbrev refusing : StripeCalls
refusing = record opening { sessions_create = none }

abbrev owned : TenantContext
owned = record {
  organization_id = 1;
  user_id = 7;
  role = owner;
  plan = "free";
  rpm_override = none;
  tpd_override = none;
}

abbrev bare : Organization
bare = record acme { stripe_customer_id = none }

abbrev start : World
start = record { organizations = bare ∷ []; customers = []; sessions = [] }

abbrev asked : Requested
asked = record { settings = settings; stripe = opening; tenant = owned }

abbrev text_of : ℕ → String
text_of id = "one"

abbrev read_uuid : String → Option ℕ
read_uuid s = some 1

abbrev started : World
unfolding checkout transaction attempt_checkout require_enabled can_manage require_manager
    get_client org_by_id write_org organization_of add_customer customer_or_new ensure_customer
    open_session session_params start_session create_checkout_session
started = (checkout text_of settings opening owned start).1

started_lem : checkout text_of settings opening owned start ≡ (ok "https://pay", started)
unfolding checkout transaction attempt_checkout require_enabled can_manage require_manager
    get_client org_by_id write_org organization_of add_customer customer_or_new ensure_customer
    open_session session_params start_session create_checkout_session
started_lem = refl

checkout_upgrades_example :
    (can_manage owned.role ≡ true)
    × (p : SessionParams) × (o : Organization) × (started.sessions ≡ p ∷ start.sessions)
    × (org_by_id 1 (
          handle_event read_uuid
            (checkout_completed (completed p (some "sub_1")))
            started.organizations)
        ≡ some o)
    × (o.plan ≡ "pro")
    × (o.stripe_customer_id ≡ p.customer)
checkout_upgrades_example =
    checkout_upgrades text_of read_uuid settings opening owned start "https://pay" started
      (some "sub_1") refl refl started_lem

bare-IsUpgradable : IsUpgradable settings owned bare (bare ∷ [])
unfolding can_manage org_by_id
bare-IsUpgradable = record {
  enabled = refl;
  manager = refl;
  priced = refl;
  keyed = refl;
  found = refl;
  not_pro = refl;
  bare = refl;
}

checkout-orphans_example :
    customers_of 1 (again text_of settings refusing owned bare "cus_2" 3 start).customers
    ≡ 3 + customers_of 1 []
checkout-orphans_example =
    checkout-orphans text_of settings refusing owned bare "cus_2" 3 start bare-IsUpgradable refl
      refl

abbrev utf8 : String → Option String
utf8 b = some b

abbrev accepts : String → String → String → Bool
accepts payload signature secret = str_eq signature "signed"

abbrev read_json : String → Option Json
read_json b = some (object "customer.subscription.updated" updated)

stripe_webhook-Verified_example :
    Answered utf8 accepts read_json no_uuid settings "{}" (some "signed") start
stripe_webhook-Verified_example =
    stripe_webhook-Verified utf8 accepts read_json no_uuid settings "{}" (some "signed") start
