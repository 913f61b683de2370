-- ===== src/Admin/Tests.antt =====
-- The theorems on the administration, at a small platform.
use saas_genai_starter.Common.{ℕ, Option, none, some, List, [], ◌∷◌, String}
use saas_genai_starter.Tenants.Models.{owner, Organization, Membership, Tables}
use saas_genai_starter.Tenants.Service.{AuthenticatedUser, Env}
use saas_genai_starter.Tenants.Requests.{rename}
use saas_genai_starter.Tenants.Context.{TenantContext}
use saas_genai_starter.Billing.Events.{checkout_completed}
use saas_genai_starter.Admin.{LimitsUpdate, with_limits}
use saas_genai_starter.Admin.Delivered.{Later, delivery, tenant_request}

abbrev acme : Organization
acme = record {
  id = 1;
  name = "Acme";
  rate_limit_rpm_override = none;
  rate_limit_tpd_override = some 5000;
  plan = "free";
  stripe_customer_id = none;
  stripe_subscription_id = none;
  subscription_status = none;
  created_at = 0;
}

abbrev ada : Membership
ada = record { id = 3; organization_id = 1; user_id = 7; role = owner; created_at = 0 }

abbrev tables : Tables
tables = record {
  organizations = acme ∷ [];
  memberships = ada ∷ [];
  invitations = [];
  profiles = [];
}

abbrev root_user : AuthenticatedUser
root_user = record { user_id = 9; email = some "root@acme"; name = none }

abbrev lower : String → String
lower s = s

abbrev raised : LimitsUpdate
raised = record { requests_per_minute = some 120; tokens_per_day = none }

abbrev after : Tables
after = record tables { organizations = with_limits raised acme ∷ [] }

abbrev read_uuid : String → Option ℕ
read_uuid s = some 1

abbrev ada_user : AuthenticatedUser
ada_user = record { user_id = 7; email = some "ada@acme"; name = none }

abbrev env : Env
env = record {
  now = 1000;
  new_organization = 2;
  new_membership = 102;
  new_invitation = 201;
  token = "tok";
}

-- the organization upgrades after the update, and its owner renames it
abbrev upgrade : List Later
upgrade =
    delivery (
      checkout_completed (record {
        id = none;
        client_reference_id = some "one";
        customer = some "cus_1";
        subscription = some "sub_1";
        status = none;
      }))
    ∷ tenant_request env ada_user (rename 1 "Acme & Co")
    ∷ []

abbrev context : TenantContext
context = record {
  organization_id = 1;
  user_id = 7;
  role = owner;
  plan = "pro";
  rpm_override = some 120;
  tpd_override = none;
}
