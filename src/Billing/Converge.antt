-- ===== src/Billing/Converge.antt =====
-- A delivery that is repeated changes nothing more; two that are swapped do.
use saas_genai_starter.Common.{
  ℕ, ◌≡◌, refl, sym, ap, subst, ◌∙◌, Bool, true, false, Option, none, some, List, arith, String,
  ◌==◌, str_eq, if◌then◌else◌, keep_if, first, Bool-cases, inl, inr,
}
use mathlib.Core.Option
use saas_genai_starter.Tenants.Models.{Organization}
use saas_genai_starter.Billing.Events.{
  Object, Event, checkout_completed, subscription_updated, subscription_deleted, ignored,
  org_for_customer, org_by_id, write_org, plan_of, checked_out, synced, apply_to, by_reference,
  for_reference, org_for_checkout, handle_event,
}
use saas_genai_starter.Billing.Replay.{
  apply_to-over, customer_test, customer_find, synced_passes, same_text_self, none_pass,
  first-passes, first-write_org, first_choice, last_delivery_decides,
}

checked_out_passes :
    (obj : Object) (o : Organization)
    → customer_test obj.customer o ≡ true
    → customer_test obj.customer (checked_out obj o) ≡ true
unfolding checked_out
checked_out_passes obj o h = ground (arith, same_text_self obj.customer)

module _ (parse_uuid : String → Option ℕ) where
  abbrev reference_test : Option ℕ → Organization → Bool
  reference_test none o = false
  reference_test (some id) o = o.id == id

  abbrev checkout_test : Option String → Option String → Organization → Bool
  checkout_test c none o = customer_test c o
  checkout_test c (some r) o =
      if str_eq r "" then customer_test c o else reference_test (parse_uuid r) o

  reference_passes :
      (obj : Object) (r : Option ℕ) (o : Organization)
      → reference_test r o ≡ true
      → reference_test r (checked_out obj o) ≡ true
  unfolding checked_out
  reference_passes obj none o h = h
  reference_passes obj (some id) o h = h

  reference_find :
      (r : Option ℕ) (orgs : List Organization)
      → by_reference parse_uuid r orgs ≡ first (keep_if (reference_test r) orgs)
  unfolding by_reference org_by_id
  reference_find none orgs = sym (none_pass orgs)
  reference_find (some id) orgs = refl

  checkout_find :
      (c r : Option String) (orgs : List Organization)
      → for_reference parse_uuid c r orgs ≡ first (keep_if (checkout_test c r) orgs)
  unfolding for_reference
  checkout_find c none orgs = customer_find c orgs
  checkout_find c (some r) orgs =
      rw (customer_find c orgs, reference_find (parse_uuid r) orgs)
        (first_choice (str_eq r "") (customer_test c) (reference_test (parse_uuid r)) orgs)

  checkout_passes :
      (obj : Object) (r : Option String) (o : Organization)
      → checkout_test obj.customer r o ≡ true
      → checkout_test obj.customer r (checked_out obj o) ≡ true
  checkout_passes obj none o h = checked_out_passes obj o h
  checkout_passes obj (some r) o h = elim (Bool-cases (str_eq r "")) [
    | inl empty ↦ rw empty (checked_out_passes obj o (rw empty at h))
    | inr given ↦ rw given (reference_passes obj (parse_uuid r) o (rw given at h))
  ]

  checked_out-over :
      (obj : Object) (o : Organization) → checked_out obj (checked_out obj o) ≡ checked_out obj o
  unfolding checked_out
  checked_out-over obj o = ground arith

  checked_out_id : (obj : Object) (o : Organization) → (checked_out obj o).id ≡ o.id
  unfolding checked_out
  checked_out_id obj o = refl

  -- Every event, delivered twice in a row, leaves what one delivery leaves.
  pub handle_event-twice :
      (e : Event) (orgs : List Organization)
      → handle_event parse_uuid e (handle_event parse_uuid e orgs) ≡ handle_event parse_uuid e orgs
  unfolding handle_event org_for_checkout
  handle_event-twice (checkout_completed obj) orgs =
      apply_to-over (for_reference parse_uuid obj.customer obj.client_reference_id)
        (checkout_test obj.customer obj.client_reference_id)
        (checkout_find obj.customer obj.client_reference_id) (checked_out obj) (checked_out obj)
        (checked_out_id obj) (checked_out_id obj) (checkout_passes obj obj.client_reference_id)
        (checked_out-over obj) orgs
  handle_event-twice (subscription_updated obj) orgs =
      last_delivery_decides parse_uuid false false obj obj orgs refl
  handle_event-twice (subscription_deleted obj) orgs =
      last_delivery_decides parse_uuid true true obj obj orgs refl
  handle_event-twice (ignored t) orgs = refl

  -- The plan of the organization that a customer's lookup finds.
  abbrev pub plan_for : Option String → List Organization → Option String
  plan_for c orgs = Option.map (λ o. o.plan) (org_for_customer c orgs)

  synced-plan :
      (c status id : Option String) (orgs : List Organization) (o : Organization)
      → org_for_customer c orgs ≡ some o
      → plan_for c (apply_to (synced status id) (org_for_customer c orgs) orgs)
        ≡ some (plan_of status)
  synced-plan c status id orgs o e =
      let at_o = sym (customer_find c orgs) ∙ e in
      rw
        (
          e,
          customer_find c (write_org (synced status id o) orgs),
          first-write_org (customer_test c) o (synced status id o) orgs at_o (unfold synced in refl)
              (synced_passes c status id o (first-passes (customer_test c) o orgs at_o)),
        )
        (unfold synced in refl)

  -- Deliveries that are out of order do not converge: for a customer whose organization is found, an
  -- update with an active status and a deletion leave it on the pro plan in the one order, and on the
  -- free plan in the other.
  pub out_of_order_diverges :
      (updated deleted : Object) (orgs : List Organization) (o : Organization)
      → updated.customer ≡ deleted.customer
      → org_for_customer updated.customer orgs ≡ some o
      → plan_of updated.status ≡ "pro"
      → let update = handle_event parse_uuid (subscription_updated updated) in
        let delete = handle_event parse_uuid (subscription_deleted deleted) in
        (plan_for updated.customer (update (delete orgs)) ≡ some "pro")
        × (plan_for updated.customer (delete (update orgs)) ≡ some "free")
  out_of_order_diverges updated deleted orgs o same found active = (
    ap (plan_for updated.customer)
          (last_delivery_decides parse_uuid true false deleted updated orgs (sym same))
        ∙ unfold handle_event in
          synced-plan updated.customer updated.status updated.id orgs o found ∙ ap some active,
    ap (plan_for updated.customer)
          (last_delivery_decides parse_uuid false true updated deleted orgs same)
        ∙ subst
            (λ c.
              plan_for c (handle_event parse_uuid (subscription_deleted deleted) orgs)
              ≡ some "free")
            (sym same)
            (unfold handle_event plan_of in
              synced-plan deleted.customer (some "canceled") deleted.id orgs o
                (subst (λ c. org_for_customer c orgs ≡ some o) same found)),
  )
