-- ===== src/Billing/Once.antt =====
-- How many Stripe customers the checkouts make.
use saas_genai_starter.Common.{
  ℕ, ◌+◌, ◌≤◌, ◌≡◌, inl, inr, refl, sym, ap, ◌∙◌, true, false, Bool-cases, Option, none, some, List,
  [], ◌∷◌, String, ◌==◌, ==_iff, if◌then◌else◌, is_some, arith,
}
use saas_genai_starter.Tenants.Models.{Organization}
use saas_genai_starter.Tenants.Context.{TenantContext}
use saas_genai_starter.Billing.Events.{org_by_id, write_org}
use saas_genai_starter.Billing.Replay.{first-write_org}
use saas_genai_starter.Billing.Checkout.{BillingSettings, StripeCalls, Customer, World, checkout}

-- How many of the customers are the organization's.
unfoldable pub customers_of : ℕ → List Customer → ℕ
customers_of id [] = 0
customers_of id (c ∷ cs) =
    let rest = customers_of id cs in if c.organization_id == id then 1 + rest else rest

abbrev pub has_customer : Option Organization → ℕ
has_customer none = 0
has_customer (some o) = if is_some o.stripe_customer_id then 1 else 0

-- An organization has at most one customer, and then its row has a customer's id.
abbrev pub AtMostOne : World → Type 0
AtMostOne w = (id : ℕ) → customers_of id w.customers ≤ has_customer (org_by_id id w.organizations)

pub org_by_id-id :
    (id : ℕ) (orgs : List Organization) (o : Organization) → org_by_id id orgs ≡ some o → o.id ≡ id
unfolding org_by_id
org_by_id-id id [] o e = absurd (cc)
org_by_id-id id (x ∷ orgs) o e = elim (Bool-cases (x.id == id)) [
  | inl hit ↦ ap (λ z. z.id) (sym (same (rw hit at e))) ∙ (==_iff x.id id).0 hit
  | inr miss ↦ org_by_id-id id orgs o (rw miss at e)
]
  where
    same : {a b : Organization} → some a ≡ some b → a ≡ b
    same e = cc

pub write_org-other :
    (id : ℕ) (n : Organization) (orgs : List Organization)
    → (n.id == id) ≡ false
    → org_by_id id (write_org n orgs) ≡ org_by_id id orgs
unfolding org_by_id write_org
write_org-other id n [] ne = refl
write_org-other id n (x ∷ orgs) ne = ground (arith, write_org-other id n orgs ne)

pub org_by_id-write_org :
    (i : ℕ) (o n : Organization) (orgs : List Organization)
    → org_by_id i orgs ≡ some o
    → n.id ≡ o.id
    → (n.id == i) ≡ true
    → org_by_id i (write_org n orgs) ≡ some n
unfolding org_by_id
org_by_id-write_org i o n orgs f same mine = first-write_org (λ x. x.id == i) o n orgs f same mine

-- A request's settings, Stripe's answers and tenant.
pub record Requested : Type 0 where
  pub settings : BillingSettings
  pub stripe : StripeCalls
  pub tenant : TenantContext

-- Stripe opens the session, if it is asked to.
abbrev pub Opens : Requested → Type 0
Opens r = (url : String) × (r.stripe.sessions_create ≡ some url)

module _ (uuid_text : ℕ → String) where
  -- The requests one after the other, the first of the list first.
  abbrev pub checkouts : List Requested → World → World
  checkouts [] w = w
  checkouts (r ∷ rs) w = checkouts rs (checkout uuid_text r.settings r.stripe r.tenant w).1
