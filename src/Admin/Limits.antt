-- ===== src/Admin/Limits.antt =====
-- What an update of an organization's limits reaches.
use saas_genai_starter.Common.{◌≡◌, Option, some}
use saas_genai_starter.Tenants.Models.{Organization}
use saas_genai_starter.Tenants.Context.{TenantContext}

-- A context has the overrides of a row.
abbrev pub OfRow : TenantContext → Option Organization → Type 0
OfRow c o =
    (r : Organization) × (o ≡ some r)
    × (c.rpm_override ≡ r.rate_limit_rpm_override)
    × (c.tpd_override ≡ r.rate_limit_tpd_override)
