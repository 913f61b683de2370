-- ===== src/Tenants/Tests.antt =====
-- The theorems on organizations, members and invitations, at a concrete workspace.
use saas_genai_starter.Common.{
  ℕ, ◌≡◌, ◌≢◌, ◌⊎◌, refl, true, Option, none, some, str_eq, if◌then◌else◌, List, [], ◌∷◌, String,
}
use saas_genai_starter.Core.Action.{ok}
use saas_genai_starter.Tenants.Models.{
  Role, owner, admin, member, Organization, Membership, Invitation, Tables,
}
use saas_genai_starter.Tenants.Context.{
  TenantContext, get_current_tenant, get_current_tenant-Member,
}
use saas_genai_starter.Tenants.Repository.{
  get_organization, get_membership, set_role, delete_membership, get_invitation_by_token_hash,
  set_accepted, insert_membership,
}
use saas_genai_starter.Tenants.Service.{
  AuthenticatedUser, Env, update_member_role, remove_member, require_membership, require_rank,
  ensure_not_last_owner, check_role_change, check_removal, new_membership,
}
use saas_genai_starter.Tenants.Invitations.{accept_invitation, check_acceptable}
use saas_genai_starter.Tenants.Authority.{
  may_change, may_remove, update_member_role_authority, remove_member_authority,
}
use saas_genai_starter.Tenants.Rows.{Unique}
use saas_genai_starter.Tenants.Owners.{Owned}
use saas_genai_starter.Tenants.Requests.{Request, change_role, remove, accept, serve, serve_all}
use saas_genai_starter.Tenants.Requests.Members.{serve_all-keeps_owner}
use saas_genai_starter.Tenants.Requests.Invited.{accept_invitation-single_use}

abbrev plain : String → String
plain s = s

abbrev env : Env
env = record {
  now = 1000;
  new_organization = 2;
  new_membership = 102;
  new_invitation = 201;
  token = "tok2";
}

abbrev alice : AuthenticatedUser
alice = record { user_id = 10; email = some "alice@acme.test"; name = some "Alice" }

abbrev bob : AuthenticatedUser
bob = record { user_id = 11; email = some "bob@acme.test"; name = none }

abbrev eve : AuthenticatedUser
eve = record { user_id = 12; email = some "eve@acme.test"; name = none }

-- whoever else reads eve's mail
abbrev mallory : AuthenticatedUser
mallory = record eve { user_id = 13 }

abbrev membership : ℕ → ℕ → Role → Membership
membership id user r = record {
  id = id;
  organization_id = 1;
  user_id = user;
  role = r;
  created_at = id;
}

abbrev invited : Invitation
invited = record {
  id = 200;
  organization_id = 1;
  email = "eve@acme.test";
  role = member;
  token_hash = "tok";
  invited_by = 10;
  expires_at = 5000;
  accepted_at = none;
  revoked_at = none;
  created_at = 500;
}

abbrev tables : Tables
tables = record {
  organizations = [];
  memberships = membership 100 10 owner ∷ membership 101 11 member ∷ [];
  invitations = invited ∷ [];
  profiles = [];
}

-- bob is promoted, alice tries to leave, eve accepts her invitation
abbrev history : List (Env × AuthenticatedUser × Request)
history =
    (env, alice, change_role 1 11 admin) ∷ (env, alice, remove 1 10) ∷ (env, eve, accept "tok") ∷ []

tables-Unique : Unique tables.memberships
tables-Unique = (refl, (refl, tt))

serve_all-keeps_owner_example :
    Unique (serve_all plain plain history tables).memberships
    × Owned 1 (serve_all plain plain history tables)
serve_all-keeps_owner_example =
    serve_all-keeps_owner plain plain history 1 tables tables-Unique refl

update_member_role_authority_example :
    (a : Membership) × (b : Membership) × (get_membership 1 10 tables ≡ some a)
    × (get_membership 1 11 tables ≡ some b)
    × (may_change a.role b.role admin ≡ true)
    × (membership 101 11 admin ≡ record b { role = admin })
    × (set_role 1 11 admin tables ≡ set_role 1 11 admin tables)
unfolding update_member_role require_membership require_rank check_role_change ensure_not_last_owner
    get_membership
update_member_role_authority_example =
    update_member_role_authority alice 1 11 admin (membership 101 11 admin) tables
      (set_role 1 11 admin tables) refl

remove_member_authority_example :
    (a : Membership) × (b : Membership) × (get_membership 1 10 tables ≡ some a)
    × (get_membership 1 11 tables ≡ some b)
    × ((alice.user_id ≡ 11) ⊎ (may_remove a.role b.role ≡ true))
    × (delete_membership 1 11 tables ≡ delete_membership 1 11 tables)
unfolding remove_member require_membership require_rank check_removal ensure_not_last_owner
    get_membership
remove_member_authority_example =
    remove_member_authority alice 1 11 tables (delete_membership 1 11 tables) refl

-- after eve has accepted
abbrev joined : Membership
joined = new_membership env 1 12 member

abbrev accepted : Tables
accepted = (accept_invitation plain plain env eve "tok" tables).1

accept_invitation-single_use_example :
    accept_invitation plain plain env mallory "tok" (serve_all plain plain history accepted)
    ≢ (ok joined, tables)
unfolding accept_invitation check_acceptable get_invitation_by_token_hash get_membership
    insert_membership set_accepted
accept_invitation-single_use_example =
    accept_invitation-single_use plain plain env env eve mallory "tok" joined joined tables accepted
      tables history refl

abbrev promoted : Tables
promoted =
    (accept_invitation plain plain env eve "tok"
      (serve plain plain env alice (change_role 1 11 admin) tables)).1

abbrev workspace : Organization
workspace = record {
  id = 1;
  name = "Acme";
  rate_limit_rpm_override = none;
  rate_limit_tpd_override = some 5000;
  plan = "pro";
  stripe_customer_id = none;
  stripe_subscription_id = none;
  subscription_status = none;
  created_at = 0;
}

abbrev with_workspace : Tables
with_workspace = record tables { organizations = workspace ∷ [] }

abbrev parse_one : String → Option ℕ
parse_one text = if str_eq text "1" then some 1 else none

abbrev bob_context : TenantContext
bob_context = record {
  organization_id = 1;
  user_id = 11;
  role = member;
  plan = "pro";
  rpm_override = none;
  tpd_override = some 5000;
}

get_current_tenant-Member_example :
    (bob_context.user_id ≡ 11)
    × (m : Membership) × (get_membership 1 11 with_workspace ≡ some m)
    × (bob_context.role ≡ m.role)
unfolding get_current_tenant get_membership get_organization
get_current_tenant-Member_example =
    get_current_tenant-Member parse_one 11 with_workspace (some "1") bob_context refl
