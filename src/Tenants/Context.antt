-- ===== src/Tenants/Context.antt =====
-- The tenant of a request: apps/api/src/core/tenancy.py. `parse_uuid` stands for `uuid.UUID`.
use saas_genai_starter.Common.{
  ℕ, ◌≡◌, refl, sym, ap, subst, Bool-cases, inl, inr, Option, none, some, String, str_eq,
  if◌then◌else◌,
}
use saas_genai_starter.Core.Errors.{bad_request, not_found}
use saas_genai_starter.Core.Action.{Result, ok, err, crash}
use saas_genai_starter.Tenants.Models.{Role, Organization, Membership, Tables}
use saas_genai_starter.Tenants.Repository.{get_organization, get_membership}

pub record TenantContext : Type 0 where
  pub organization_id : ℕ
  pub user_id : ℕ
  pub role : Role
  pub plan : String
  pub rpm_override : Option ℕ
  pub tpd_override : Option ℕ

-- `membership.organization` is the row of the foreign key
unfoldable pub context_of : ℕ → ℕ → Membership → Option Organization → Result TenantContext
context_of org user m none = crash "AttributeError"
context_of org user m (some o) = ok (record {
  organization_id = org;
  user_id = user;
  role = m.role;
  plan = o.plan;
  rpm_override = o.rate_limit_rpm_override;
  tpd_override = o.rate_limit_tpd_override;
})

unfoldable pub resolve_membership : ℕ → ℕ → Tables → Option Membership → Result TenantContext
unfolding context_of
resolve_membership org user t none = err (not_found "Organization not found")
resolve_membership org user t (some m) =
    context_of org user m (get_organization m.organization_id t)

unfoldable pub resolve_uuid : ℕ → Tables → Option ℕ → Result TenantContext
unfolding resolve_membership
resolve_uuid user t none = err (bad_request "X-Org-Id must be a UUID")
resolve_uuid user t (some org) = resolve_membership org user t (get_membership org user t)

unfoldable pub get_current_tenant :
    (String → Option ℕ) → ℕ → Tables → Option String → Result TenantContext
unfolding resolve_uuid
get_current_tenant parse_uuid user t none = err (bad_request "Missing X-Org-Id header")
get_current_tenant parse_uuid user t (some x_org_id) =
    if str_eq x_org_id ""
    then err (bad_request "Missing X-Org-Id header")
    else resolve_uuid user t (parse_uuid x_org_id)

ok_inj : {A : Type 0} (a b : A) → ok a ≡ ok b → a ≡ b
ok_inj a b e = cc

context_of_lem :
    (org user : ℕ) (m : Membership) (o : Option Organization) (c : TenantContext)
    → context_of org user m o ≡ ok c
    → (c.organization_id ≡ org) × (c.user_id ≡ user) × (c.role ≡ m.role)
unfolding context_of
context_of_lem org user m none c e = absurd (cc)
context_of_lem org user m (some o) c e =
    let f = ok_inj _ c e in
    (sym (ap (λ x. x.organization_id) f), sym (ap (λ x. x.user_id) f), sym (ap (λ x. x.role) f))

-- Whose request it is, as the rows of the memberships have it.
abbrev pub Member : ℕ → Tables → TenantContext → Type 0
Member user t c =
    (c.user_id ≡ user)
    × (m : Membership) × (get_membership c.organization_id user t ≡ some m)
    × (c.role ≡ m.role)

resolve_membership-Member :
    (org user : ℕ) (t : Tables) (found : Option Membership) (c : TenantContext)
    → get_membership org user t ≡ found
    → resolve_membership org user t found ≡ ok c
    → Member user t c
unfolding resolve_membership
resolve_membership-Member org user t none c g e = absurd (cc)
resolve_membership-Member org user t (some m) c g e =
    let (o, u, r) = context_of_lem org user m (get_organization m.organization_id t) c e in
    (u, m, subst (λ x. get_membership x user t ≡ some m) (sym o) g, r)

resolve_uuid-Member :
    (user : ℕ) (t : Tables) (org : Option ℕ) (c : TenantContext)
    → resolve_uuid user t org ≡ ok c
    → Member user t c
unfolding resolve_uuid
resolve_uuid-Member user t none c e = absurd (cc)
resolve_uuid-Member user t (some org) c e =
    resolve_membership-Member org user t (get_membership org user t) c refl e

-- Whatever the header holds: where a request gets a tenant context, the user has a membership of that
-- organization, and the context has the role of that membership.
pub get_current_tenant-Member :
    (parse_uuid : String → Option ℕ) (user : ℕ) (t : Tables) (header : Option String)
    (c : TenantContext)
    → get_current_tenant parse_uuid user t header ≡ ok c
    → (c.user_id ≡ user)
      × (m : Membership) × (get_membership c.organization_id user t ≡ some m)
      × (c.role ≡ m.role)
unfolding get_current_tenant
get_current_tenant-Member parse_uuid user t none c e = absurd (cc)
get_current_tenant-Member parse_uuid user t (some x) c e = elim (Bool-cases (str_eq x "")) [
  | inl blank ↦ absurd (cc (rw blank at e))
  | inr given ↦ resolve_uuid-Member user t (parse_uuid x) c (rw given at e)
]
