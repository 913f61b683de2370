-- ===== src/Billing/Sync.antt =====
-- What the webhook's events do to the billing state, in sequence.
use saas_genai_starter.Common.{
  ℕ, ◌≡◌, refl, Option, none, some, List, [], ◌∷◌, arith, String, ◌==◌, str_eq_iff, All, Bool-cases,
  inl, inr,
}
use saas_genai_starter.Tenants.Models.{Organization}
use saas_genai_starter.Billing.Events.{
  Object, Event, checkout_completed, subscription_updated, subscription_deleted, ignored,
  org_for_customer, write_org, plan_of, checked_out, synced, apply_to, org_for_checkout,
  handle_event,
}

-- The plan follows the status, and a free organization has no subscription.
pub record IsConsistent (o : Organization) : Type 0 where
  pub plan_follows : o.plan ≡ plan_of o.subscription_status
  pub free_unsubscribed : o.plan ≡ "free" → o.stripe_subscription_id ≡ none

checked_out-IsConsistent : (obj : Object) (o : Organization) → IsConsistent (checked_out obj o)
unfolding checked_out plan_of
checked_out-IsConsistent obj o = record {
  plan_follows = refl;
  free_unsubscribed = λ e. absurd (ground (arith, str_eq_iff "pro" "free"));
}

synced-IsConsistent :
    (status id : Option String) (o : Organization) → IsConsistent (synced status id o)
unfolding synced
synced-IsConsistent status id o = record {
  plan_follows = refl;
  free_unsubscribed = λ e. ground (arith, str_eq_iff (plan_of status) "free");
}

pub write_org-All :
    (P : Organization → Type 0) (o : Organization) (orgs : List Organization)
    → P o
    → All P orgs
    → All P (write_org o orgs)
unfolding write_org
write_org-All P o [] p h = tt
write_org-All P o (x ∷ orgs) p h = elim (Bool-cases (x.id == o.id)) [
  | inl hit ↦ rw hit (p, write_org-All P o orgs p h.1)
  | inr miss ↦ rw miss (h.0, write_org-All P o orgs p h.1)
]

apply_to-All :
    (P : Organization → Type 0) (f : Organization → Organization) (o : Option Organization)
    (orgs : List Organization)
    → ((x : Organization) → P (f x))
    → All P orgs
    → All P (apply_to f o orgs)
apply_to-All P f none orgs p h = h
apply_to-All P f (some o) orgs p h = write_org-All P (f o) orgs (p o) h

module _ (parse_uuid : String → Option ℕ) where
  -- Every event keeps the plan of every organization in step with its subscription's status, and a
  -- free organization without a subscription.
  pub handle_event-IsConsistent :
      (e : Event) (orgs : List Organization)
      → All IsConsistent orgs
      → All IsConsistent (handle_event parse_uuid e orgs)
  unfolding handle_event
  handle_event-IsConsistent (checkout_completed obj) orgs h =
      apply_to-All IsConsistent (checked_out obj) (org_for_checkout parse_uuid obj orgs) orgs
        (checked_out-IsConsistent obj) h
  handle_event-IsConsistent (subscription_updated obj) orgs h =
      apply_to-All IsConsistent (synced obj.status obj.id) (org_for_customer obj.customer orgs) orgs
        (synced-IsConsistent obj.status obj.id) h
  handle_event-IsConsistent (subscription_deleted obj) orgs h =
      apply_to-All IsConsistent (synced (some "canceled") obj.id)
        (org_for_customer obj.customer orgs) orgs (synced-IsConsistent (some "canceled") obj.id) h
  handle_event-IsConsistent (ignored t) orgs h = h
