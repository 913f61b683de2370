-- ===== src/Billing/Upgrade.antt =====
-- From a checkout to the Pro plan: the webhook's event for the session that a checkout opened.
use saas_genai_starter.Common.{
  ℕ, ◌≡◌, inl, inr, refl, sym, ap, subst, ◌∙◌, true, false, Bool-cases, Option, none, some, List,
  ◌∷◌, String, str_eq, ==_iff,
}
use saas_genai_starter.Core.Action.{Result, ok, err, crash, ◌>>=◌}
use saas_genai_starter.Tenants.Models.{Organization}
use saas_genai_starter.Tenants.Context.{TenantContext}
use saas_genai_starter.Billing.Events.{
  Object, checkout_completed, truthy, org_by_id, checked_out, by_reference, for_reference,
  org_for_checkout, handle_event,
}
use saas_genai_starter.Billing.Checkout.{
  BillingSettings, StripeCalls, SessionParams, World, can_manage, transaction, add_customer,
  customer_or_new, ensure_customer, open_session, session_params, attempt_checkout, checkout,
}
use saas_genai_starter.Billing.Customers.{linked_to, guarded_checkout}
use saas_genai_starter.Billing.Once.{org_by_id-id, org_by_id-write_org}

-- The object of the event that Stripe sends when the session is paid.
abbrev pub completed : SessionParams → Option String → Object
completed p subscription = record {
  id = none;
  client_reference_id = some p.client_reference_id;
  customer = p.customer;
  subscription = subscription;
  status = none;
}

-- The session of a checkout, and the row of the organization that it is for.
abbrev pub Opened : (ℕ → String) → ℕ → World → World → Type 0
Opened uuid_text id w after =
    (p : SessionParams) × (o : Organization) × (after.sessions ≡ p ∷ w.sessions)
    × (org_by_id id after.organizations ≡ some o)
    × (p.customer ≡ o.stripe_customer_id)
    × (p.client_reference_id ≡ uuid_text id)

module _ (uuid_text : ℕ → String) (settings : BillingSettings) (stripe : StripeCalls)
    (tenant : TenantContext) (w : World) where
  Succeeds : Result String × World → Type 0
  Succeeds x =
      (url : String)
      → x.0 ≡ ok url
      → (can_manage tenant.role ≡ true) × Opened uuid_text tenant.organization_id w x.1

  opened :
      (session : Option String) (org : Organization) (v : World)
      → can_manage tenant.role ≡ true
      → v.sessions ≡ w.sessions
      → org_by_id tenant.organization_id v.organizations ≡ some org
      → Succeeds (open_session session (session_params uuid_text settings org) v)
  unfolding Succeeds open_session session_params
  opened none org v m s f url e = absurd (cc)
  opened (some u) org v m s f url e = (
    m,
    (
      session_params uuid_text settings org,
      org,
      ap (λ l. session_params uuid_text settings org ∷ l) s,
      f,
      refl,
      ap uuid_text (org_by_id-id tenant.organization_id v.organizations org f),
    ),
  )

  ensured :
      (held : Option String) (created : Option String) (org : Organization)
      → can_manage tenant.role ≡ true
      → org_by_id tenant.organization_id w.organizations ≡ some org
      → Succeeds (
          (customer_or_new (record stripe { customers_create = created }) org held >>= λ o.
          open_session stripe.sessions_create (session_params uuid_text settings o))
            w)
  unfolding customer_or_new add_customer
  ensured (some c) created org m f = opened stripe.sessions_create org w m refl f
  ensured none none org m f = unfold Succeeds in λ url e. absurd (cc)
  ensured none (some c) org m f = opened stripe.sessions_create (linked_to c org) _ m refl (
      org_by_id-write_org tenant.organization_id org (linked_to c org) w.organizations f refl (
        (==_iff org.id tenant.organization_id).1
          (org_by_id-id tenant.organization_id w.organizations org f)))

  attempt-Succeeds : Succeeds (attempt_checkout uuid_text settings stripe tenant w)
  attempt-Succeeds =
      guarded_checkout uuid_text settings stripe "" Succeeds tenant w
        (λ e. unfold Succeeds in λ url h. absurd (cc))
        (λ org e m f n.
          unfold ensure_customer in ensured org.stripe_customer_id stripe.customers_create org m f)

  committed :
      (x : Result String × World) (url : String) (after : World)
      → transaction (λ v. x) w ≡ (ok url, after)
      → x ≡ (ok url, after)
  unfolding transaction
  committed (ok u, v) url after e = e
  committed (err u, v) url after e = absurd (cc (ap (λ z. z.0) e))
  committed (crash u, v) url after e = absurd (cc (ap (λ z. z.0) e))

  pub checkout-Opened :
      (url : String) (after : World)
      → checkout uuid_text settings stripe tenant w ≡ (ok url, after)
      → (can_manage tenant.role ≡ true) × Opened uuid_text tenant.organization_id w after
  unfolding checkout transaction Succeeds
  checkout-Opened url after e =
      let c = committed (attempt_checkout uuid_text settings stripe tenant w) url after e in
      subst (λ v. (can_manage tenant.role ≡ true) × Opened uuid_text tenant.organization_id w v)
        (ap (λ z. z.1) c) (attempt-Succeeds url (ap (λ z. z.0) c))

kept_customer :
    (p : SessionParams) (subscription : Option String) (o : Organization)
    → p.customer ≡ o.stripe_customer_id
    → (checked_out (completed p subscription) o).stripe_customer_id ≡ p.customer
unfolding checked_out
kept_customer p subscription o same = elim (Bool-cases (truthy p.customer)) [
  | inl t ↦ rw t refl
  | inr n ↦ rw n (sym same)
]

module _ (uuid_text : ℕ → String) (parse_uuid : String → Option ℕ) where
  referenced :
      (id : ℕ) (customer : Option String) (text : String) (orgs : List Organization)
      → str_eq text "" ≡ false
      → parse_uuid text ≡ some id
      → for_reference parse_uuid customer (some text) orgs ≡ org_by_id id orgs
  unfolding for_reference by_reference
  referenced id customer text orgs n e = rw (n, e) refl

  -- A checkout that returns a URL was asked by an owner or an admin, and has opened a session with the
  -- customer of the tenant's organization; when Stripe's event reports that session completed, the
  -- webhook puts that organization on the Pro plan and keeps the session's customer on its row. It
  -- stands on ids that are read back from their texts.
  pub checkout_upgrades :
      (settings : BillingSettings) (stripe : StripeCalls) (tenant : TenantContext) (w : World)
      (url : String) (after : World) (subscription : Option String)
      → str_eq (uuid_text tenant.organization_id) "" ≡ false
      → parse_uuid (uuid_text tenant.organization_id) ≡ some tenant.organization_id
      → checkout uuid_text settings stripe tenant w ≡ (ok url, after)
      → (can_manage tenant.role ≡ true)
        × (p : SessionParams) × (o : Organization) × (after.sessions ≡ p ∷ w.sessions)
        × (org_by_id tenant.organization_id (
              handle_event parse_uuid
                (checkout_completed (completed p subscription))
                after.organizations)
            ≡ some o)
        × (o.plan ≡ "pro")
        × (o.stripe_customer_id ≡ p.customer)
  unfolding handle_event org_for_checkout
  checkout_upgrades settings stripe tenant w url after subscription t parse e =
      let (m, session) = checkout-Opened uuid_text settings stripe tenant w url after e in
      let (p, o, s, f, c, r) = session in
      let id : ℕ = tenant.organization_id in
      let at : for_reference parse_uuid p.customer (some p.client_reference_id) after.organizations
          ≡ some o =
        rw r (referenced id p.customer (uuid_text id) after.organizations t parse) ∙ f in
      (
        m,
        p,
        checked_out (completed p subscription) o,
        s,
        rw at (
            org_by_id-write_org id o (checked_out (completed p subscription) o) after.organizations
              f (unfold checked_out in refl)
              (unfold checked_out in (==_iff o.id id).1 (org_by_id-id id after.organizations o f))),
        (unfold checked_out in refl),
        kept_customer p subscription o c,
      )
