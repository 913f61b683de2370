-- ===== src/Tenants/Requests/Members.antt =====
-- The membership rows through any history of requests: no duplicates, and no organization loses its
-- last owner.
use saas_genai_starter.Common.{
  ℕ, ◌≡◌, refl, inl, inr, Bool, true, false, any, ◌==◌, List, [], ◌∷◌, ◌++◌, arith, String,
  Option-cases,
}
use saas_genai_starter.Core.Action.{Action, Result, ok, err, crash, request}
use saas_genai_starter.Tenants.Models.{Role, owner, Membership, Tables}
use saas_genai_starter.Tenants.Repository.{
  insert_membership, create_organization, set_role, delete_membership, set_name,
  list_memberships_for_user, add_invitation, set_accepted, set_revoked,
  get_invitation_by_token_hash,
}
use saas_genai_starter.Tenants.Service.{
  AuthenticatedUser, Env, require_membership, require_rank, ensure_not_last_owner,
  found_organization, list_organizations, create_organization_for, rename_organization,
  update_member_role, remove_member, new_membership, new_organization, first_organization,
  workspace_name, check_role_change, check_removal,
}
use saas_genai_starter.Tenants.Invitations.{
  create_invitation, revoke_invitation, accept_invitation, check_acceptable,
}
use saas_genai_starter.Tenants.Rows.{
  Unique, set_rows-Unique, drop_rows-Unique, append-Unique, append-owner_of,
}
use saas_genai_starter.Tenants.Owners.{Owned, update_member_role-Owned, remove_member-Owned}
use saas_genai_starter.Tenants.Requests.{
  Request, list, create, rename, change_role, remove, invite, revoke, accept, raise_stop, read_back,
  rename_route, serve, serve_all,
}

-- The rows are as good as before: unique, and with an owner for `o` if it had one.
abbrev Keeps : ℕ → Tables → Tables → Type 0
Keeps o t u = Unique t.memberships → Unique u.memberships × (Owned o t → Owned o u)

insert-Keeps : (o : ℕ) (m : Membership) (t : Tables) → Keeps o t (insert_membership m t).1
unfolding insert_membership
insert-Keeps o m t h =
    ground (arith, append-Unique m t.memberships h, append-owner_of m o t.memberships)

found_organization-Keeps :
    (o : ℕ) (env : Env) (name : String) (user : ℕ) (t : Tables)
    → Keeps o t (found_organization env name user t).1
unfolding found_organization create_organization
found_organization-Keeps o env name user t h =
    insert-Keeps o (new_membership env env.new_organization user owner)
      (record t { organizations = t.organizations ++ new_organization env name ∷ [] }) h

set_accepted-same :
    (hash : String) (now : ℕ) (t : Tables) → (set_accepted hash now t).memberships ≡ t.memberships
unfolding set_accepted
set_accepted-same hash now t = refl

request-Keeps :
    (o : ℕ) (t : Tables) {A : Type 0} (m : Action Tables A)
    → Keeps o t (m t).1
    → Keeps o t (request m t).1
request-Keeps o t m k h = ground (arith, k h)

first_organization-Keeps :
    (o : ℕ) (env : Env) (user : AuthenticatedUser) (ms : List Membership) (t : Tables)
    → Keeps o t (first_organization env user ms t).1
unfolding first_organization
first_organization-Keeps o env user [] t h =
    ground (arith, found_organization-Keeps o env (workspace_name user.name) user.user_id t h)
first_organization-Keeps o env user (m ∷ ms) t h = (h, λ k. k)

create_organization_for-Keeps :
    (o : ℕ) (env : Env) (user : AuthenticatedUser) (name : String) (t : Tables)
    → Keeps o t (create_organization_for env user name t).1
unfolding create_organization_for
create_organization_for-Keeps o env user name t h =
    ground (arith, found_organization-Keeps o env name user.user_id t h)

-- An operation that leaves the membership rows alone.
same-Keeps : (o : ℕ) (t u : Tables) → u.memberships ≡ t.memberships → Keeps o t u
same-Keeps o t u e h = (rw e h, λ k. rw e k)

rename-same :
    (user : AuthenticatedUser) (org : ℕ) (name : String) (t : Tables)
    → (rename_organization user org name t).1.memberships ≡ t.memberships
unfolding rename_organization require_membership require_rank set_name
rename-same user org name t = ground arith

then-Keeps :
    (o : ℕ) (t : Tables) {A B : Type 0} (p : Result A × Tables) (k : A → Action Tables B)
    → Keeps o t p.1
    → ((a : A) (u : Tables) → Keeps o u (k a u).1)
    → Keeps o t (
        (elim (p.0) as (λ r. Result B × Tables) [
          | ok a ↦ k a (p.1)
          | err e ↦ (err e, p.1)
          | crash x ↦ (crash x, p.1)
        ]).1)
then-Keeps o t (ok a, u) k h n = λ v. ((n a u ((h v).0)).0, λ w. (n a u ((h v).0)).1 ((h v).1 w))
then-Keeps o t (err e, u) k h n = h
then-Keeps o t (crash x, u) k h n = h

raise_stop-Keeps : (o : ℕ) (b : Bool) (t : Tables) → Keeps o t (raise_stop b t).1
unfolding raise_stop
raise_stop-Keeps o true t h = (h, λ k. k)
raise_stop-Keeps o false t h = (h, λ k. k)

rename_route-Keeps :
    (o : ℕ) (env : Env) (user : AuthenticatedUser) (org : ℕ) (name : String) (t : Tables)
    → Keeps o t (rename_route env user org name t).1
unfolding rename_route read_back list_organizations
rename_route-Keeps o env user org name t =
    then-Keeps o t (rename_organization user org name t) (λ _. read_back env user org)
      (same-Keeps o t (rename_organization user org name t).1 (rename-same user org name t))
      (λ a u.
        then-Keeps o u (list_organizations env user u)
          (λ ms. raise_stop (any (λ m. m.organization_id == org) ms))
          (first_organization-Keeps o env user (list_memberships_for_user user.user_id u) u)
          (λ ms v. raise_stop-Keeps o (any (λ m. m.organization_id == org) ms) v))

update_member_role-Unique :
    (actor : AuthenticatedUser) (org user : ℕ) (r : Role) (t : Tables)
    → Unique t.memberships
    → Unique (update_member_role actor org user r t).1.memberships
unfolding update_member_role require_membership require_rank check_role_change ensure_not_last_owner
    set_role
update_member_role-Unique actor org user r t h =
    ground (arith, set_rows-Unique org user r t.memberships h)

remove_member-Unique :
    (actor : AuthenticatedUser) (org user : ℕ) (t : Tables)
    → Unique t.memberships
    → Unique (remove_member actor org user t).1.memberships
unfolding remove_member require_membership require_rank check_removal ensure_not_last_owner
    delete_membership
remove_member-Unique actor org user t h = ground (arith, drop_rows-Unique org user t.memberships h)

module _ (lower hash : String → String) where
  invite-same :
      (env : Env) (user : AuthenticatedUser) (org : ℕ) (email : String) (r : Role) (t : Tables)
      → (create_invitation lower hash env user org email r t).1.memberships ≡ t.memberships
  unfolding create_invitation require_membership require_rank add_invitation
  invite-same env user org email r t = ground arith

  revoke-same :
      (now : ℕ) (user : AuthenticatedUser) (org id : ℕ) (t : Tables)
      → (revoke_invitation now user org id t).1.memberships ≡ t.memberships
  unfolding revoke_invitation require_membership require_rank set_revoked
  revoke-same now user org id t = ground arith

  accept-Keeps :
      (o : ℕ) (env : Env) (user : AuthenticatedUser) (token : String) (t : Tables)
      → Keeps o t (accept_invitation lower hash env user token t).1
  unfolding accept_invitation check_acceptable
  accept-Keeps o env user token t h =
      elim (Option-cases (get_invitation_by_token_hash (hash token) t)) [
        | inl missing ↦ ground arith
        | inr (i, found) ↦ ground (
          arith,
          insert-Keeps o (new_membership env i.organization_id user.user_id i.role)
              (set_accepted (hash token) env.now t),
          set_accepted-same (hash token) env.now t,
        )
      ]

  serve-Keeps :
      (o : ℕ) (env : Env) (user : AuthenticatedUser) (r : Request) (t : Tables)
      → Keeps o t (serve lower hash env user r t)
  unfolding serve list_organizations
  serve-Keeps o env user list t =
      request-Keeps o t (list_organizations env user)
        (first_organization-Keeps o env user (list_memberships_for_user user.user_id t) t)
  serve-Keeps o env user (create name) t =
      request-Keeps o t (create_organization_for env user name)
        (create_organization_for-Keeps o env user name t)
  serve-Keeps o env user (rename org name) t =
      request-Keeps o t (rename_route env user org name) (rename_route-Keeps o env user org name t)
  serve-Keeps o env user (change_role org target r) t =
      request-Keeps o t (update_member_role user org target r) (λ h. (
        update_member_role-Unique user org target r t h,
        update_member_role-Owned user o org target r t h,
      ))
  serve-Keeps o env user (remove org target) t =
      request-Keeps o t (remove_member user org target)
        (λ h. (remove_member-Unique user org target t h, remove_member-Owned user o org target t h))
  serve-Keeps o env user (invite org email r) t =
      request-Keeps o t (create_invitation lower hash env user org email r) (
        same-Keeps o t (create_invitation lower hash env user org email r t).1
          (invite-same env user org email r t))
  serve-Keeps o env user (revoke org id) t =
      request-Keeps o t (revoke_invitation env.now user org id) (
        same-Keeps o t (revoke_invitation env.now user org id t).1
          (revoke-same env.now user org id t))
  serve-Keeps o env user (accept token) t =
      request-Keeps o t (accept_invitation lower hash env user token)
        (accept-Keeps o env user token t)

  -- Through any history of requests of any users, the membership rows keep at most one row for each
  -- organization and user, and an organization that has an owner never loses its last one.
  pub serve_all-keeps_owner :
      (rs : List (Env × AuthenticatedUser × Request)) (o : ℕ) (t : Tables)
      → Unique t.memberships
      → Owned o t
      → Unique (serve_all lower hash rs t).memberships × Owned o (serve_all lower hash rs t)
  unfolding serve_all
  serve_all-keeps_owner [] o t u h = (u, h)
  serve_all-keeps_owner ((env, user, r) ∷ rs) o t u h =
      let k = serve-Keeps o env user r t u in
      serve_all-keeps_owner rs o (serve lower hash env user r t) k.0 (k.1 h)
