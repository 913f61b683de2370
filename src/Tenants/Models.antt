-- ===== src/Tenants/Models.antt =====
-- The rows of apps/api/src/domains/tenants/models.py. Row and user ids are only compared, so they are
-- numbers; times are in seconds.
use saas_genai_starter.Common.{ℕ, Bool, true, false, Option, List, String}
use saas_genai_starter.Common.Int.{ℤ, pos, negsuc}

-- A role is a text: the three roles, or any other.
pub data Role : Type 0 where
  owner admin member : Role
  other : String → Role

-- `_ROLE_RANK.get(role, -1)`
abbrev pub rank : Role → ℤ
rank owner = pos 2
rank admin = pos 1
rank member = pos 0
rank (other s) = negsuc 0

abbrev pub is_owner : Role → Bool
is_owner owner = true
is_owner r = false

-- `role in (ROLE_ADMIN, ROLE_MEMBER)`
abbrev pub is_invitable : Role → Bool
is_invitable admin = true
is_invitable member = true
is_invitable r = false

pub record Organization : Type 0 where
  pub id : ℕ
  pub name : String
  pub rate_limit_rpm_override : Option ℕ
  pub rate_limit_tpd_override : Option ℕ
  pub plan : String
  pub stripe_customer_id : Option String
  pub stripe_subscription_id : Option String
  pub subscription_status : Option String
  pub created_at : ℕ

pub record Membership : Type 0 where
  pub id : ℕ
  pub organization_id : ℕ
  pub user_id : ℕ
  pub role : Role
  pub created_at : ℕ

pub record Invitation : Type 0 where
  pub id : ℕ
  pub organization_id : ℕ
  pub email : String
  pub role : Role
  pub token_hash : String
  pub invited_by : ℕ
  pub expires_at : ℕ
  pub accepted_at : Option ℕ
  pub revoked_at : Option ℕ
  pub created_at : ℕ

-- a row of auth."user", which the API only reads
pub record Profile : Type 0 where
  pub id : ℕ
  pub email : Option String
  pub name : Option String

-- The tables, in the order of insertion.
pub record Tables : Type 0 where
  pub organizations : List Organization
  pub memberships : List Membership
  pub invitations : List Invitation
  pub profiles : List Profile
