-- ===== src/Tenants/Requests/Kept.antt =====
-- What the requests that have nothing to do with an invitation's acceptance keep of the invitations.
use saas_genai_starter.Common.{
  ℕ, ◌≡◌, refl, Bool, true, false, any, ◌==◌, List, [], ◌∷◌, arith, String,
}
use saas_genai_starter.Core.Action.{Action, Result, ok, err, crash, request}
use saas_genai_starter.Tenants.Models.{Role, Membership, Tables}
use saas_genai_starter.Tenants.Repository.{
  list_memberships_for_user, insert_membership, create_organization, set_role, delete_membership,
  set_name,
}
use saas_genai_starter.Tenants.Service.{
  AuthenticatedUser, Env, require_membership, require_rank, ensure_not_last_owner,
  check_role_change, update_member_role, check_removal, remove_member, rename_organization,
  found_organization, first_organization, workspace_name, list_organizations,
  create_organization_for,
}
use saas_genai_starter.Tenants.Invitations.{revoke_invitation}
use saas_genai_starter.Tenants.Requests.{raise_stop, read_back, rename_route}
use saas_genai_starter.Tenants.Spent.{Holds, same-Holds, set_revoked-Holds}

pub insert-same :
    (m : Membership) (t : Tables) → (insert_membership m t).1.invitations ≡ t.invitations
unfolding insert_membership
insert-same m t = ground arith

found_organization-same :
    (env : Env) (name : String) (user : ℕ) (t : Tables)
    → (found_organization env name user t).1.invitations ≡ t.invitations
unfolding found_organization create_organization insert_membership
found_organization-same env name user t = ground arith

pub first_organization-same :
    (env : Env) (user : AuthenticatedUser) (ms : List Membership) (t : Tables)
    → (first_organization env user ms t).1.invitations ≡ t.invitations
unfolding first_organization
first_organization-same env user [] t =
    ground (arith, found_organization-same env (workspace_name user.name) user.user_id t)
first_organization-same env user (m ∷ ms) t = refl

pub create-same :
    (env : Env) (user : AuthenticatedUser) (name : String) (t : Tables)
    → (create_organization_for env user name t).1.invitations ≡ t.invitations
unfolding create_organization_for
create-same env user name t = ground (arith, found_organization-same env name user.user_id t)

rename-same :
    (user : AuthenticatedUser) (org : ℕ) (name : String) (t : Tables)
    → (rename_organization user org name t).1.invitations ≡ t.invitations
unfolding rename_organization require_membership require_rank set_name
rename-same user org name t = ground arith

pub update-same :
    (actor : AuthenticatedUser) (org user : ℕ) (r : Role) (t : Tables)
    → (update_member_role actor org user r t).1.invitations ≡ t.invitations
unfolding update_member_role require_membership require_rank check_role_change ensure_not_last_owner
    set_role
update-same actor org user r t = ground arith

pub remove-same :
    (actor : AuthenticatedUser) (org user : ℕ) (t : Tables)
    → (remove_member actor org user t).1.invitations ≡ t.invitations
unfolding remove_member require_membership require_rank check_removal ensure_not_last_owner
    delete_membership
remove-same actor org user t = ground arith

pub revoke-Holds :
    (h : String) (now : ℕ) (user : AuthenticatedUser) (org id : ℕ) (t : Tables)
    → Holds h t (revoke_invitation now user org id t).1
unfolding revoke_invitation require_membership require_rank
revoke-Holds h now user org id t = ground (arith, set_revoked-Holds h org id now t)

then-Holds :
    (h : String) (t : Tables) {A B : Type 0} (p : Result A × Tables) (k : A → Action Tables B)
    → Holds h t p.1
    → ((a : A) (u : Tables) → Holds h u (k a u).1)
    → Holds h t (
        (elim (p.0) as (λ r. Result B × Tables) [
          | ok a ↦ k a (p.1)
          | err e ↦ (err e, p.1)
          | crash x ↦ (crash x, p.1)
        ]).1)
then-Holds h t (ok a, u) k x n = (λ s. (n a u).0 (x.0 s), λ s. (n a u).1 (x.1 s))
then-Holds h t (err e, u) k x n = x
then-Holds h t (crash m, u) k x n = x

raise_stop-Holds : (h : String) (b : Bool) (t : Tables) → Holds h t (raise_stop b t).1
unfolding raise_stop
raise_stop-Holds h true t = (λ k. k, λ k. k)
raise_stop-Holds h false t = (λ k. k, λ k. k)

pub rename_route-Holds :
    (h : String) (env : Env) (user : AuthenticatedUser) (org : ℕ) (name : String) (t : Tables)
    → Holds h t (rename_route env user org name t).1
unfolding rename_route read_back list_organizations
rename_route-Holds h env user org name t =
    then-Holds h t (rename_organization user org name t) (λ _. read_back env user org)
      (same-Holds h t (rename_organization user org name t).1 (rename-same user org name t))
      (λ a u.
        then-Holds h u (list_organizations env user u)
          (λ ms. raise_stop (any (λ m. m.organization_id == org) ms))
          (same-Holds h u (list_organizations env user u).1
            (first_organization-same env user (list_memberships_for_user user.user_id u) u))
          (λ ms v. raise_stop-Holds h (any (λ m. m.organization_id == org) ms) v))

pub request-Holds :
    (h : String) (t : Tables) {A : Type 0} (m : Action Tables A)
    → Holds h t (m t).1
    → Holds h t (request m t).1
request-Holds h t m k = ground (arith, k.0, k.1)
