-- ===== src/Tenants/Service.antt =====
-- `TenantService` of apps/api/src/domains/tenants/service.py: organizations and members. What the clock
-- and the random generators give is the request's `Env`.
use saas_genai_starter.Common.{
  ℕ, Bool, not, ◌&&◌, Option, none, some, List, [], ◌∷◌, map, String, ◌==◌, str_eq, if◌then◌else◌,
  any, ◌+s◌,
}
use saas_genai_starter.Common.Int.{ltb_ℤ, leb_ℤ}
use saas_genai_starter.Core.Errors.{forbidden, not_found, conflict}
use saas_genai_starter.Core.Action.{
  Action, crash, pure, gets, or_raise, raise_if, when, modify, ◌>>=◌, ◌>>◌,
}
use saas_genai_starter.Tenants.Models.{
  Role, owner, admin, member, other, rank, is_owner, Organization, Membership, Profile, Tables,
}
use saas_genai_starter.Tenants.Repository.{
  list_memberships_for_user, get_membership, list_members, create_organization, set_role,
  delete_membership, set_name, resolve_users,
}

-- `AuthenticatedUser`
pub record AuthenticatedUser : Type 0 where
  pub user_id : ℕ
  pub email : Option String
  pub name : Option String

-- `datetime.now`, fresh ids, and `secrets.token_urlsafe`
pub record Env : Type 0 where
  pub now : ℕ
  pub new_organization : ℕ
  pub new_membership : ℕ
  pub new_invitation : ℕ
  pub token : String

abbrev pub Db : Type 0 → Type 0
Db A = Action Tables A

unfoldable pub require_membership : ℕ → ℕ → Db Membership
require_membership org user t =
    or_raise (get_membership org user t) (not_found "Organization not found") t

abbrev pub role_name : Role → String
role_name owner = "owner"
role_name admin = "admin"
role_name member = "member"
role_name (other s) = s

unfoldable pub require_rank : Role → Role → Db (Unit {0})
require_rank role minimum =
    raise_if (ltb_ℤ (rank role) (rank minimum))
      (forbidden ("Requires the " +s role_name minimum +s " role"))

abbrev pub other_owner : ℕ → Membership → Bool
other_owner user m = is_owner m.role && not (m.user_id == user)

unfoldable pub ensure_not_last_owner : ℕ → ℕ → Db (Unit {0})
ensure_not_last_owner org user t =
    raise_if (not (any (other_owner user) (list_members org t)))
      (conflict "An organization must keep at least one owner") t

unfoldable pub workspace_name : Option String → String
workspace_name none = "Personal workspace"
workspace_name (some s) = if str_eq s "" then "Personal workspace" else s +s "'s workspace"

unfoldable pub new_organization : Env → String → Organization
new_organization env name = record {
  id = env.new_organization;
  name = name;
  rate_limit_rpm_override = none;
  rate_limit_tpd_override = none;
  plan = "free";
  stripe_customer_id = none;
  stripe_subscription_id = none;
  subscription_status = none;
  created_at = env.now;
}

unfoldable pub new_membership : Env → ℕ → ℕ → Role → Membership
new_membership env org user role = record {
  id = env.new_membership;
  organization_id = org;
  user_id = user;
  role = role;
  created_at = env.now;
}

-- the repository's `create_organization`, which makes the caller its owner
unfoldable pub found_organization : Env → String → ℕ → Db (Unit {0})
unfolding new_organization new_membership
found_organization env name user =
    create_organization (new_organization env name)
      (new_membership env env.new_organization user owner)

unfoldable pub first_organization : Env → AuthenticatedUser → List Membership → Db (List Membership)
unfolding workspace_name
first_organization env user [] = do
  found_organization env (workspace_name user.name) user.user_id
  gets (list_memberships_for_user user.user_id)
first_organization env user (m ∷ ms) = pure (m ∷ ms)

unfoldable pub list_organizations : Env → AuthenticatedUser → Db (List Membership)
unfolding first_organization
list_organizations env user t =
    first_organization env user (list_memberships_for_user user.user_id t) t

unfoldable pub create_organization_for : Env → AuthenticatedUser → String → Db Membership
create_organization_for env user name = do
  found_organization env name user.user_id
  found ← gets (get_membership env.new_organization user.user_id)
  elim found [ none ↦ (λ t. (crash "AssertionError", t)) | some m ↦ pure m ]

unfoldable pub rename_organization : AuthenticatedUser → ℕ → String → Db (Unit {0})
rename_organization user org name = do
  m ← require_membership org user.user_id
  require_rank m.role admin
  modify (set_name org name)

unfoldable pub list_members_of : AuthenticatedUser → ℕ → Db (List Membership × List Profile)
list_members_of user org = do
  require_membership org user.user_id
  members ← gets (list_members org)
  profiles ← gets (resolve_users (map (λ m. m.user_id) members))
  pure (members, profiles)

-- the checks of `update_member_role` once both memberships are loaded
unfoldable pub check_role_change : ℕ → ℕ → Role → Role → Role → Db (Unit {0})
check_role_change org target_user actor target new_role = do
  raise_if (is_owner target && not (is_owner actor))
      (forbidden "Only an owner can change another owner's role")
  raise_if (is_owner new_role && not (is_owner actor))
      (forbidden "Only an owner can grant the owner role")
  when (is_owner target && not (is_owner new_role)) (ensure_not_last_owner org target_user)

unfoldable pub update_member_role : AuthenticatedUser → ℕ → ℕ → Role → Db Membership
unfolding check_role_change
update_member_role actor org target_user new_role = do
  a ← require_membership org actor.user_id
  require_rank a.role admin
  found ← gets (get_membership org target_user)
  target ← or_raise found (not_found "Member not found")
  check_role_change org target_user a.role target.role new_role
  modify (set_role org target_user new_role)
  pure (record target { role = new_role })

-- the checks of `remove_member` once both memberships are loaded
unfoldable pub check_removal : ℕ → ℕ → Bool → Role → Role → Db (Unit {0})
check_removal org target_user self actor target = do
  when (not self) (require_rank actor admin)
  raise_if (not self && leb_ℤ (rank actor) (rank target))
      (forbidden "Cannot remove a member with an equal or higher role")
  when (is_owner target) (ensure_not_last_owner org target_user)

unfoldable pub remove_member : AuthenticatedUser → ℕ → ℕ → Db (Unit {0})
unfolding check_removal
remove_member actor org target_user = do
  a ← require_membership org actor.user_id
  found ← gets (get_membership org target_user)
  target ← or_raise found (not_found "Member not found")
  check_removal org target_user (actor.user_id == target_user) a.role target.role
  modify (delete_membership org target_user)
