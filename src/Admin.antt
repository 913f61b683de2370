-- ===== src/Admin.antt =====
-- The platform's administration: apps/api/src/domains/admin/router.py. `lower` is `str.lower`; `in_window`
-- says of a usage row whether it was made in the last 30 days.
pub mod Delivered
pub mod Requested
pub mod Limits
pub mod Overview
mod Tests
use saas_genai_starter.Common.{
  ℕ, ◌+◌, Bool, not, ◌&&◌, Option, none, some, List, [], ◌∷◌, map, String, ◌==◌, text_in, or_else,
  if◌then◌else◌, keep_if, leb,
}
use saas_genai_starter.Core.Errors.{not_found}
use saas_genai_starter.Core.Order.{order_by}
use saas_genai_starter.Core.Action.{Action, Result, ok, err, pure, raise, ◌>>=◌, ◌>>◌}
use saas_genai_starter.Tenants.Models.{Organization, Membership, Tables}
use saas_genai_starter.Tenants.Service.{AuthenticatedUser}
use saas_genai_starter.Tenants.Repository.{get_organization}
use saas_genai_starter.Billing.Events.{truthy, write_org}
use saas_genai_starter.Usage.Session.{LlmUsage}

-- The bounds of the fields, which FastAPI checks before the handler runs.
pub record LimitsUpdate : Type 0 where
  pub requests_per_minute : Option ℕ
  pub tokens_per_day : Option ℕ

pub record AdminOrganizationOut : Type 0 where
  pub id : ℕ
  pub name : String
  pub created_at : ℕ
  pub members : ℕ
  pub documents : ℕ
  pub conversations : ℕ
  pub cost_30d_usd : ℕ
  pub rate_limit_rpm_override : Option ℕ
  pub rate_limit_tpd_override : Option ℕ

module _ (lower : String → String) (allowlist : List String) where
  unfoldable pub is_platform_admin : AuthenticatedUser → Bool
  is_platform_admin user = truthy user.email && text_in (lower (or_else user.email "")) allowlist

  unfoldable pub require_platform_admin :
      {S : Type 0} → AuthenticatedUser → Action S AuthenticatedUser
  unfolding is_platform_admin
  require_platform_admin user s =
      if is_platform_admin user then (ok user, s) else (err (not_found "Not found"), s)

-- The rows of a `GROUP BY` with a sum of `amount`: one for each key, in some order.
unfoldable pub add_to : ℕ → ℕ → List (ℕ × ℕ) → List (ℕ × ℕ)
add_to k n [] = (k, n) ∷ []
add_to k n ((j, m) ∷ rows) =
    let rest = add_to k n rows in if j == k then (j, n + m) ∷ rows else (j, m) ∷ rest

unfoldable pub sums_by : {A : Type 0} → (A → ℕ) → (A → ℕ) → List A → List (ℕ × ℕ)
unfolding add_to
sums_by key amount [] = []
sums_by key amount (x ∷ xs) = add_to (key x) (amount x) (sums_by key amount xs)

-- `select(key, func.count()).group_by(key)`
abbrev pub counts_by : {A : Type 0} → (A → ℕ) → List A → List (ℕ × ℕ)
counts_by key = sums_by key (λ x. 1)

-- `rows.get(key, 0)`
unfoldable pub sum_at : ℕ → List (ℕ × ℕ) → ℕ
sum_at k [] = 0
sum_at k ((j, m) ∷ rows) = if j == k then m else sum_at k rows

-- The tables that the overview reads, the documents and conversations by their tenant.
pub record Platform : Type 0 where
  pub tables : Tables
  pub documents : List ℕ
  pub conversations : List ℕ
  pub usage : List LlmUsage

abbrev pub itself : ℕ → ℕ
itself n = n

module _ (in_window : LlmUsage → Bool) where
  unfoldable pub overview_of : Platform → Organization → AdminOrganizationOut
  unfolding sum_at sums_by
  overview_of p org = record {
    id = org.id;
    name = org.name;
    created_at = org.created_at;
    members = sum_at org.id (counts_by (λ m. m.organization_id) p.tables.memberships);
    documents = sum_at org.id (counts_by itself p.documents);
    conversations = sum_at org.id (counts_by itself p.conversations);
    cost_30d_usd =
        sum_at org.id (sums_by (λ u. u.tenant_id) (λ u. u.cost_usd) (keep_if in_window p.usage));
    rate_limit_rpm_override = org.rate_limit_rpm_override;
    rate_limit_tpd_override = org.rate_limit_tpd_override;
  }

  unfoldable pub organizations_of : Platform → List AdminOrganizationOut
  unfolding overview_of
  organizations_of p = map (overview_of p) (order_by (λ o. o.created_at) p.tables.organizations)

  -- `GET /admin/organizations`
  unfoldable pub list_all_organizations :
      (String → String)
      → List String
      → AuthenticatedUser
      → Action Platform (List AdminOrganizationOut)
  unfolding require_platform_admin organizations_of
  list_all_organizations lower allowlist user =
      require_platform_admin lower allowlist user >> (λ p. (ok (organizations_of p), p))

abbrev pub with_limits : LimitsUpdate → Organization → Organization
with_limits payload o = record o {
  rate_limit_rpm_override = payload.requests_per_minute;
  rate_limit_tpd_override = payload.tokens_per_day;
}

abbrev pub limits_out : Organization → AdminOrganizationOut
limits_out o = record {
  id = o.id;
  name = o.name;
  created_at = o.created_at;
  members = 0;
  documents = 0;
  conversations = 0;
  cost_30d_usd = 0;
  rate_limit_rpm_override = o.rate_limit_rpm_override;
  rate_limit_tpd_override = o.rate_limit_tpd_override;
}

unfoldable pub update_found :
    LimitsUpdate → Option Organization → Action Tables AdminOrganizationOut
unfolding write_org
update_found payload none t = (err (not_found "Organization not found"), t)
update_found payload (some o) t = (
  ok (limits_out (with_limits payload o)),
  record t { organizations = write_org (with_limits payload o) t.organizations },
)

-- `PATCH /admin/organizations/{organization_id}/limits`
unfoldable pub update_organization_limits :
    (String → String)
    → List String
    → AuthenticatedUser
    → ℕ
    → LimitsUpdate
    → Action Tables AdminOrganizationOut
unfolding require_platform_admin update_found get_organization
update_organization_limits lower allowlist user id payload =
    require_platform_admin lower allowlist user
    >> (λ t. update_found payload (get_organization id t) t)
