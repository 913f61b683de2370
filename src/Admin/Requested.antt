-- ===== src/Admin/Requested.antt =====
-- What the requests of tenants leave of the rows of the organizations.
use saas_genai_starter.Common.{
  ℕ, ◌≡◌, sym, subst, Bool, true, false, any, ◌==◌, List, [], ◌∷◌, ◌++◌, map, arith, String, All,
  All-append, Bool-cases, Option-cases, ◌⊎◌, inl, inr, if◌then◌else◌,
}
use saas_genai_starter.Core.Action.{Action, Result, ok, err, crash, request}
use saas_genai_starter.Common.Int.{ltb_ℤ}
use saas_genai_starter.Tenants.Models.{Role, admin, rank, Organization, Membership, Tables}
use saas_genai_starter.Tenants.Repository.{
  list_memberships_for_user, get_membership, insert_membership, create_organization, set_role,
  delete_membership, set_name, add_invitation, set_accepted, set_revoked,
  get_invitation_by_token_hash,
}
use saas_genai_starter.Tenants.Service.{
  AuthenticatedUser, Env, require_membership, require_rank, ensure_not_last_owner,
  check_role_change, update_member_role, check_removal, remove_member, rename_organization,
  new_organization, found_organization, first_organization, workspace_name, list_organizations,
  create_organization_for,
}
use saas_genai_starter.Tenants.Invitations.{
  create_invitation, revoke_invitation, accept_invitation, check_acceptable,
}
use saas_genai_starter.Tenants.Requests.{
  Request, list, create, rename, change_role, remove, invite, revoke, accept, raise_stop, read_back,
  rename_route, serve,
}

-- A predicate that a change of the name keeps, and that new rows have.
module _ (P : Organization → Type 0)
    (renamed : (o : Organization) (name : String) → P o → P (record o { name = name })) where
  abbrev Keeps : Tables → Tables → Type 0
  Keeps t u = All P t.organizations → All P u.organizations

  same_organizations : (os ns : List Organization) → ns ≡ os → All P os → All P ns
  same_organizations os ns e h = subst (All P) (sym e) h

  then-Keeps :
      (t : Tables) {A B : Type 0} (p : Result A × Tables) (k : A → Action Tables B)
      → Keeps t p.1
      → ((a : A) (u : Tables) → Keeps u (k a u).1)
      → Keeps t (
          (elim (p.0) as (λ r. Result B × Tables) [
            | ok a ↦ k a (p.1)
            | err e ↦ (err e, p.1)
            | crash x ↦ (crash x, p.1)
          ]).1)
  then-Keeps t (ok a, u) k x n h = n a u (x h)
  then-Keeps t (err e, u) k x n h = x h
  then-Keeps t (crash m, u) k x n h = x h

  request-Keeps :
      {A : Type 0} (t : Tables) (m : Action Tables A) → Keeps t (m t).1 → Keeps t (request m t).1
  request-Keeps t m k h = ground (arith, k h, h)

  appended :
      (env : Env) (name : String) (user : ℕ) (t : Tables)
      → (found_organization env name user t).1.organizations
        ≡ t.organizations ++ new_organization env name ∷ []
  unfolding found_organization create_organization insert_membership
  appended env name user t = ground arith

  set_name-Keeps :
      (org : ℕ) (name : String) (os : List Organization)
      → All P os
      → All P (map (λ o. if o.id == org then record o { name = name } else o) os)
  set_name-Keeps org name [] h = tt
  set_name-Keeps org name (o ∷ os) h = elim (Bool-cases (o.id == org)) [
    | inl hit ↦ rw hit (renamed o name h.0, set_name-Keeps org name os h.1)
    | inr miss ↦ rw miss (h.0, set_name-Keeps org name os h.1)
  ]

  rename_cases :
      (user : AuthenticatedUser) (org : ℕ) (name : String) (t : Tables)
      → ((rename_organization user org name t).1.organizations ≡ t.organizations)
        ⊎ ((rename_organization user org name t).1.organizations
            ≡ map (λ o. if o.id == org then record o { name = name } else o) t.organizations)
  unfolding rename_organization require_membership require_rank set_name
  rename_cases user org name t = elim (Option-cases (get_membership org user.user_id t)) [
    | inl missing ↦ inl (ground arith)
    | inr (m, found) ↦ elim (Bool-cases (ltb_ℤ (rank m.role) (rank admin))) [
      | inl low ↦ inl (ground arith)
      | inr high ↦ inr (ground arith)
    ]
  ]

  rename-Keeps :
      (user : AuthenticatedUser) (org : ℕ) (name : String) (t : Tables)
      → Keeps t (rename_organization user org name t).1
  rename-Keeps user org name t h = elim (rename_cases user org name t) [
    | inl e ↦ subst (All P) (sym e) h
    | inr e ↦ subst (All P) (sym e) (set_name-Keeps org name t.organizations h)
  ]

  raise_stop-Keeps : (b : Bool) (t : Tables) → Keeps t (raise_stop b t).1
  unfolding raise_stop
  raise_stop-Keeps true t h = h
  raise_stop-Keeps false t h = h

  update_organizations :
      (actor : AuthenticatedUser) (org user : ℕ) (r : Role) (t : Tables)
      → (update_member_role actor org user r t).1.organizations ≡ t.organizations
  unfolding update_member_role require_membership require_rank check_role_change
      ensure_not_last_owner set_role
  update_organizations actor org user r t = ground arith

  remove_organizations :
      (actor : AuthenticatedUser) (org user : ℕ) (t : Tables)
      → (remove_member actor org user t).1.organizations ≡ t.organizations
  unfolding remove_member require_membership require_rank check_removal ensure_not_last_owner
      delete_membership
  remove_organizations actor org user t = ground arith

  revoke_organizations :
      (now : ℕ) (user : AuthenticatedUser) (org id : ℕ) (t : Tables)
      → (revoke_invitation now user org id t).1.organizations ≡ t.organizations
  unfolding revoke_invitation require_membership require_rank set_revoked
  revoke_organizations now user org id t = ground arith

  module _ (lower hash : String → String) where
    invite_organizations :
        (env : Env) (user : AuthenticatedUser) (org : ℕ) (email : String) (r : Role) (t : Tables)
        → (create_invitation lower hash env user org email r t).1.organizations ≡ t.organizations
    unfolding create_invitation require_membership require_rank add_invitation
    invite_organizations env user org email r t = ground arith

    accept_organizations :
        (env : Env) (user : AuthenticatedUser) (token : String) (t : Tables)
        → (accept_invitation lower hash env user token t).1.organizations ≡ t.organizations
    unfolding accept_invitation check_acceptable insert_membership set_accepted
    accept_organizations env user token t =
        elim (Option-cases (get_invitation_by_token_hash (hash token) t)) [
          | inl missing ↦ ground arith
          | inr (i, found) ↦ ground arith
        ]

  module _ (env : Env) (new : (name : String) → P (new_organization env name)) where
    grown :
        (name : String) (os ns : List Organization)
        → ns ≡ os ++ new_organization env name ∷ []
        → All P os
        → All P ns
    grown name os ns e h =
        subst (All P) (sym e) (All-append P os (new_organization env name ∷ []) h (new name, tt))

    create_organizations :
        (name : String) (user : AuthenticatedUser) (t : Tables)
        → (create_organization_for env user name t).1.organizations
          ≡ t.organizations ++ new_organization env name ∷ []
    unfolding create_organization_for
    create_organizations name user t = ground (arith, appended env name user.user_id t)

    first-Keeps :
        (user : AuthenticatedUser) (ms : List Membership) (t : Tables)
        → Keeps t (first_organization env user ms t).1
    unfolding first_organization
    first-Keeps user [] t h =
        grown (workspace_name user.name) t.organizations _
          (ground (arith, appended env (workspace_name user.name) user.user_id t)) h
    first-Keeps user (m ∷ ms) t h = h

    rename_route-Keeps :
        (user : AuthenticatedUser) (org : ℕ) (name : String) (t : Tables)
        → Keeps t (rename_route env user org name t).1
    unfolding rename_route read_back list_organizations
    rename_route-Keeps user org name t =
        then-Keeps t (rename_organization user org name t) (λ _. read_back env user org)
          (rename-Keeps user org name t)
          (λ a u.
            then-Keeps u (list_organizations env user u)
              (λ ms. raise_stop (any (λ m. m.organization_id == org) ms))
              (first-Keeps user (list_memberships_for_user user.user_id u) u)
              (λ ms v. raise_stop-Keeps (any (λ m. m.organization_id == org) ms) v))

    pub serve-Keeps :
        (lower hash : String → String) (user : AuthenticatedUser) (r : Request) (t : Tables)
        → All P t.organizations
        → All P (serve lower hash env user r t).organizations
    unfolding serve list_organizations
    serve-Keeps lower hash user list t =
        request-Keeps t (list_organizations env user)
          (first-Keeps user (list_memberships_for_user user.user_id t) t)
    serve-Keeps lower hash user (create name) t =
        request-Keeps t (create_organization_for env user name)
          (grown name t.organizations _ (create_organizations name user t))
    serve-Keeps lower hash user (rename org name) t =
        request-Keeps t (rename_route env user org name) (rename_route-Keeps user org name t)
    serve-Keeps lower hash user (change_role org target r) t =
        request-Keeps t (update_member_role user org target r)
          (same_organizations t.organizations _ (update_organizations user org target r t))
    serve-Keeps lower hash user (remove org target) t =
        request-Keeps t (remove_member user org target)
          (same_organizations t.organizations _ (remove_organizations user org target t))
    serve-Keeps lower hash user (invite org email r) t =
        request-Keeps t (create_invitation lower hash env user org email r) (
          same_organizations t.organizations _
            (invite_organizations lower hash env user org email r t))
    serve-Keeps lower hash user (revoke org id) t =
        request-Keeps t (revoke_invitation env.now user org id)
          (same_organizations t.organizations _ (revoke_organizations env.now user org id t))
    serve-Keeps lower hash user (accept token) t =
        request-Keeps t (accept_invitation lower hash env user token)
          (same_organizations t.organizations _ (accept_organizations lower hash env user token t))
