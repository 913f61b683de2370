-- ===== src/Billing/Events.antt =====
-- `BillingService.handle_event`: the webhook's state sync. `parse_uuid` reads a text as an
-- organization's id, and `none` is the `ValueError`. An event is its type with the keys of its object
-- that the handler reads.
use saas_genai_starter.Common.{
  ℕ, Bool, false, not, Option, none, some, List, [], ◌∷◌, map, String, ◌==◌, str_eq, text_in,
  if◌then◌else◌, keep_if, first,
}
use saas_genai_starter.Tenants.Models.{Organization}

-- ACTIVE_STATUSES
abbrev pub active_statuses : List String
active_statuses = "active" ∷ "trialing" ∷ "past_due" ∷ []

-- `event["data"]["object"]`
pub record Object : Type 0 where
  pub id : Option String
  pub client_reference_id : Option String
  pub customer : Option String
  pub subscription : Option String
  pub status : Option String

pub data Event : Type 0 where
  checkout_completed : Object → Event
  subscription_updated : Object → Event
  subscription_deleted : Object → Event
  ignored : String → Event

abbrev pub truthy : Option String → Bool
truthy none = false
truthy (some s) = not (str_eq s "")

abbrev pub same_text : Option String → Option String → Bool
same_text (some s) (some t) = str_eq s t
same_text o p = false

-- `where(Organization.stripe_customer_id == customer_id)`
unfoldable pub org_for_customer : Option String → List Organization → Option Organization
org_for_customer customer orgs =
    if truthy customer
    then first (keep_if (λ o. same_text o.stripe_customer_id customer) orgs)
    else none

unfoldable pub org_by_id : ℕ → List Organization → Option Organization
org_by_id id orgs = first (keep_if (λ o. o.id == id) orgs)

-- the attributes of the loaded row, written at the commit
unfoldable pub write_org : Organization → List Organization → List Organization
write_org o = map (λ x. if x.id == o.id then o else x)

unfoldable pub plan_of : Option String → String
plan_of none = "free"
plan_of (some s) = if text_in s active_statuses then "pro" else "free"

-- `obj.get("customer") or org.stripe_customer_id`
unfoldable pub checked_out : Object → Organization → Organization
checked_out obj org = record org {
  plan = "pro";
  stripe_customer_id = if truthy obj.customer then obj.customer else org.stripe_customer_id;
  stripe_subscription_id = obj.subscription;
  subscription_status = some "active";
}

unfoldable pub synced : Option String → Option String → Organization → Organization
unfolding plan_of
synced status id org = record org {
  plan = plan_of status;
  stripe_subscription_id = if str_eq (plan_of status) "free" then none else id;
  subscription_status = status;
}

abbrev pub apply_to :
    (Organization → Organization) → Option Organization → List Organization → List Organization
apply_to f none orgs = orgs
apply_to f (some o) orgs = write_org (f o) orgs

-- The dispatch on the event's type, and the object of its data.
unfoldable pub read_event : String → Object → Event
read_event event_type obj =
    if str_eq event_type "checkout.session.completed"
    then checkout_completed obj
    else if str_eq event_type "customer.subscription.updated"
    then subscription_updated obj
    else if str_eq event_type "customer.subscription.deleted"
    then subscription_deleted obj
    else ignored event_type

module _ (parse_uuid : String → Option ℕ) where
  unfoldable pub by_reference : Option ℕ → List Organization → Option Organization
  by_reference none orgs = none
  by_reference (some id) orgs = org_by_id id orgs

  unfoldable pub for_reference :
      Option String → Option String → List Organization → Option Organization
  for_reference customer none orgs = org_for_customer customer orgs
  for_reference customer (some r) orgs =
      if str_eq r "" then org_for_customer customer orgs else by_reference (parse_uuid r) orgs

  unfoldable pub org_for_checkout : Object → List Organization → Option Organization
  unfolding for_reference
  org_for_checkout obj = for_reference obj.customer obj.client_reference_id

  -- The event that `read_event` has told, on the rows as the session has them; the unique constraint on
  -- their customers is checked at the commit (Webhook.commit_customers).
  unfoldable pub handle_event : Event → List Organization → List Organization
  handle_event (checkout_completed obj) orgs =
      apply_to (checked_out obj) (org_for_checkout obj orgs) orgs
  handle_event (subscription_updated obj) orgs =
      apply_to (synced obj.status obj.id) (org_for_customer obj.customer orgs) orgs
  handle_event (subscription_deleted obj) orgs =
      apply_to (synced (some "canceled") obj.id) (org_for_customer obj.customer orgs) orgs
  handle_event (ignored t) orgs = orgs
