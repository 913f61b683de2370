-- ===== src/Admin/Delivered.antt =====
-- What the webhook's events and the requests of tenants leave of the limits of an organization.
use saas_genai_starter.Common.{
  ℕ, ◌≡◌, refl, subst, Bool, true, false, Option, none, some, List, [], ◌∷◌, String, str_eq, ◌==◌,
  All, Bool-cases, inl, inr, keep_if, first,
}
use saas_genai_starter.Tenants.Models.{Organization, Tables}
use saas_genai_starter.Tenants.Service.{AuthenticatedUser, Env, new_organization}
use saas_genai_starter.Tenants.Requests.{Request, serve}
use saas_genai_starter.Admin.Requested.{serve-Keeps}
use saas_genai_starter.Billing.Events.{
  Event, checkout_completed, subscription_updated, subscription_deleted, ignored, truthy,
  org_for_customer, org_by_id, write_org, checked_out, synced, apply_to, by_reference,
  for_reference, org_for_checkout, handle_event,
}
use saas_genai_starter.Billing.Sync.{write_org-All}
use saas_genai_starter.Admin.{LimitsUpdate, with_limits}

pub found-All :
    (P : Organization → Type 0) (test : Organization → Bool) (orgs : List Organization)
    (o : Organization)
    → All P orgs
    → first (keep_if test orgs) ≡ some o
    → P o
found-All P test [] o h e = absurd (cc)
found-All P test (x ∷ orgs) o h e = elim (Bool-cases (test x)) [
  | inl hit ↦ subst P (same (rw hit at e)) h.0
  | inr miss ↦ found-All P test orgs o h.1 (rw miss at e)
]
  where
    same : {a b : Organization} → some a ≡ some b → a ≡ b
    same e = cc

customer-All :
    (P : Organization → Type 0) (customer : Option String) (orgs : List Organization)
    (o : Organization)
    → All P orgs
    → org_for_customer customer orgs ≡ some o
    → P o
unfolding org_for_customer
customer-All P customer orgs o h e = elim (Bool-cases (truthy customer)) [
  | inl t ↦ found-All P _ orgs o h (rw t at e)
  | inr t ↦ absurd (cc (rw t at e))
]

module _ (parse_uuid : String → Option ℕ) where
  id-All :
      (P : Organization → Type 0) (id : Option ℕ) (orgs : List Organization) (o : Organization)
      → All P orgs
      → by_reference parse_uuid id orgs ≡ some o
      → P o
  unfolding by_reference org_by_id
  id-All P none orgs o h e = absurd (cc e)
  id-All P (some i) orgs o h e = found-All P _ orgs o h e

  reference-All :
      (P : Organization → Type 0) (customer reference : Option String) (orgs : List Organization)
      (o : Organization)
      → All P orgs
      → for_reference parse_uuid customer reference orgs ≡ some o
      → P o
  unfolding for_reference
  reference-All P customer none orgs o h e = customer-All P customer orgs o h e
  reference-All P customer (some r) orgs o h e = elim (Bool-cases (str_eq r "")) [
    | inl blank ↦ customer-All P customer orgs o h (rw blank at e)
    | inr given ↦ id-All P (parse_uuid r) orgs o h (rw given at e)
  ]

  applied-All :
      (P : Organization → Type 0) (f : Organization → Organization) (found : Option Organization)
      (orgs : List Organization)
      → ((o : Organization) → found ≡ some o → P (f o))
      → All P orgs
      → All P (apply_to f found orgs)
  applied-All P f none orgs keeps h = h
  applied-All P f (some o) orgs keeps h = write_org-All P (f o) orgs (keeps o refl) h

  module _ (id : ℕ) (payload : LimitsUpdate) where
    -- A row of the organization has the limits of the update.
    abbrev pub Limited : Organization → Type 0
    Limited o =
        (o.id == id) ≡ true
        → (o.rate_limit_rpm_override ≡ payload.requests_per_minute)
          × (o.rate_limit_tpd_override ≡ payload.tokens_per_day)

    handle_event-Limited :
        (e : Event) (orgs : List Organization)
        → All Limited orgs
        → All Limited (handle_event parse_uuid e orgs)
    unfolding handle_event checked_out synced org_for_checkout
    handle_event-Limited (checkout_completed obj) orgs h =
        applied-All Limited (checked_out obj) (org_for_checkout parse_uuid obj orgs) orgs
          (λ o f. reference-All Limited obj.customer obj.client_reference_id orgs o h f) h
    handle_event-Limited (subscription_updated obj) orgs h =
        applied-All Limited (synced obj.status obj.id) (org_for_customer obj.customer orgs) orgs
          (λ o f. customer-All Limited obj.customer orgs o h f) h
    handle_event-Limited (subscription_deleted obj) orgs h =
        applied-All Limited (synced (some "canceled") obj.id) (org_for_customer obj.customer orgs)
          orgs (λ o f. customer-All Limited obj.customer orgs o h f) h
    handle_event-Limited (ignored t) orgs h = h

    pub with_limits-Limited :
        (o : Organization) (orgs : List Organization)
        → o.id ≡ id
        → All Limited (write_org (with_limits payload o) orgs)
    unfolding write_org
    with_limits-Limited o [] own = tt
    with_limits-Limited o (x ∷ orgs) own = elim (Bool-cases (x.id == o.id)) [
      | inl hit ↦ rw hit ((λ e. (refl, refl)), with_limits-Limited o orgs own)
      | inr miss ↦ rw miss ((λ e. absurd (cc (miss, e, own))), with_limits-Limited o orgs own)
    ]

-- What may happen after an update: an event of the webhook, or a request of a tenant.
pub data Later : Type 0 where
  delivery : Event → Later
  tenant_request : Env → AuthenticatedUser → Request → Later

-- A request does not make an organization of the id.
abbrev pub IsNew : ℕ → Later → Type 0
IsNew id (delivery e) = Unit {0}
IsNew id (tenant_request env user r) = (env.new_organization == id) ≡ false

module _ (lower hash : String → String) (parse_uuid : String → Option ℕ) where
  -- one after the other
  abbrev pub later_all : List Later → Tables → Tables
  later_all [] t = t
  later_all (delivery e ∷ ls) t =
      later_all ls (record t { organizations = handle_event parse_uuid e t.organizations })
  later_all (tenant_request env user r ∷ ls) t = later_all ls (serve lower hash env user r t)

  module _ (id : ℕ) (payload : LimitsUpdate) where
    new_organization-Limited :
        (env : Env) (name : String)
        → (env.new_organization == id) ≡ false
        → Limited parse_uuid id payload (new_organization env name)
    unfolding new_organization
    new_organization-Limited env name new e = absurd (cc (new, e))

    pub later_all-Limited :
        (ls : List Later) (t : Tables)
        → All (IsNew id) ls
        → All (Limited parse_uuid id payload) t.organizations
        → All (Limited parse_uuid id payload) (later_all ls t).organizations
    later_all-Limited [] t n h = h
    later_all-Limited (delivery e ∷ ls) t n h =
        later_all-Limited ls
          (record t { organizations = handle_event parse_uuid e t.organizations }) n.1
          (handle_event-Limited parse_uuid id payload e t.organizations h)
    later_all-Limited (tenant_request env user r ∷ ls) t n h =
        later_all-Limited ls (serve lower hash env user r t) n.1 (
          serve-Keeps (Limited parse_uuid id payload) (λ o name p. p) env
            (λ name. new_organization-Limited env name n.0) lower hash user r t h)
