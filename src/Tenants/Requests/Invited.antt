-- ===== src/Tenants/Requests/Invited.antt =====
-- An invitation is accepted at most once, and gives no more than the role of an admin, through any
-- history of requests.
use saas_genai_starter.Common.{
  ℕ, ◌≡◌, ◌≢◌, inl, inr, true, List, [], ◌∷◌, arith, String, str_eq, keep_if, first, Option-cases,
}
use saas_genai_starter.Core.Action.{ok}
use saas_genai_starter.Tenants.Models.{Role, is_invitable, Membership, Tables}
use saas_genai_starter.Tenants.Repository.{
  list_memberships_for_user, set_accepted, get_invitation_by_token_hash,
}
use saas_genai_starter.Tenants.Service.{
  AuthenticatedUser, Env, require_membership, require_rank, new_membership, update_member_role,
  remove_member, list_organizations, create_organization_for,
}
use saas_genai_starter.Tenants.Invitations.{
  create_invitation, invitation, accept_invitation, check_acceptable, revoke_invitation,
}
use saas_genai_starter.Tenants.Requests.{
  Request, list, create, rename, change_role, remove, invite, revoke, accept, rename_route, serve,
  serve_all,
}
use saas_genai_starter.Tenants.Spent.{
  IsSpent, IsModest, Holds, same-Holds, set_accepted-Holds, add_invitation-Holds,
  set_accepted-IsSpent, found-IsModest,
}
use saas_genai_starter.Tenants.Requests.Kept.{
  insert-same, first_organization-same, create-same, update-same, remove-same, revoke-Holds,
  rename_route-Holds, request-Holds,
}

module _ (lower hash : String → String) where
  invite-Holds :
      (h : String) (env : Env) (user : AuthenticatedUser) (org : ℕ) (email : String) (r : Role)
      (t : Tables)
      → Holds h t (create_invitation lower hash env user org email r t).1
  unfolding create_invitation require_membership require_rank invitation
  invite-Holds h env user org email r t =
      ground (arith, add_invitation-Holds h (invitation lower hash env user org email r) t)

  accept-Holds :
      (h : String) (env : Env) (user : AuthenticatedUser) (token : String) (t : Tables)
      → Holds h t (accept_invitation lower hash env user token t).1
  unfolding accept_invitation check_acceptable
  accept-Holds h env user token t =
      elim (Option-cases (get_invitation_by_token_hash (hash token) t)) [
        | inl missing ↦ ground arith
        | inr (i, found) ↦ ground (
          arith,
          insert-same (new_membership env i.organization_id user.user_id i.role)
              (set_accepted (hash token) env.now t),
          set_accepted-Holds h (hash token) env.now t,
        )
      ]

  serve-Holds :
      (h : String) (env : Env) (user : AuthenticatedUser) (r : Request) (t : Tables)
      → Holds h t (serve lower hash env user r t)
  unfolding serve list_organizations
  serve-Holds h env user list t = request-Holds h t (list_organizations env user) (
      same-Holds h t (list_organizations env user t).1
        (first_organization-same env user (list_memberships_for_user user.user_id t) t))
  serve-Holds h env user (create name) t =
      request-Holds h t (create_organization_for env user name)
        (same-Holds h t (create_organization_for env user name t).1 (create-same env user name t))
  serve-Holds h env user (rename org name) t =
      request-Holds h t (rename_route env user org name) (rename_route-Holds h env user org name t)
  serve-Holds h env user (change_role org target r) t =
      request-Holds h t (update_member_role user org target r) (
        same-Holds h t (update_member_role user org target r t).1 (update-same user org target r t))
  serve-Holds h env user (remove org target) t =
      request-Holds h t (remove_member user org target)
        (same-Holds h t (remove_member user org target t).1 (remove-same user org target t))
  serve-Holds h env user (invite org email r) t =
      request-Holds h t (create_invitation lower hash env user org email r)
        (invite-Holds h env user org email r t)
  serve-Holds h env user (revoke org id) t =
      request-Holds h t (revoke_invitation env.now user org id)
        (revoke-Holds h env.now user org id t)
  serve-Holds h env user (accept token) t =
      request-Holds h t (accept_invitation lower hash env user token)
        (accept-Holds h env user token t)

  serve_all-Holds :
      (rs : List (Env × AuthenticatedUser × Request)) (h : String) (t : Tables)
      → Holds h t (serve_all lower hash rs t)
  unfolding serve_all
  serve_all-Holds [] h t = (λ k. k, λ k. k)
  serve_all-Holds ((env, user, r) ∷ rs) h t =
      let one = serve-Holds h env user r t in
      let rest = serve_all-Holds rs h (serve lower hash env user r t) in
      (λ k. rest.0 (one.0 k), λ k. rest.1 (one.1 k))

  accept-spends :
      (env : Env) (user : AuthenticatedUser) (token : String) (m : Membership) (t u : Tables)
      → accept_invitation lower hash env user token t ≡ (ok m, u)
      → IsSpent (hash token) u.invitations
  unfolding accept_invitation check_acceptable
  accept-spends env user token m t u e =
      elim (Option-cases (get_invitation_by_token_hash (hash token) t)) [
        | inl missing ↦ absurd (ground arith)
        | inr (i, found) ↦ ground (
          arith,
          insert-same (new_membership env i.organization_id user.user_id i.role)
              (set_accepted (hash token) env.now t),
          set_accepted-IsSpent (hash token) env.now t i found,
        )
      ]

  spent_refused :
      (env : Env) (user : AuthenticatedUser) (token : String) (m : Membership) (t u : Tables)
      → IsSpent (hash token) t.invitations
      → accept_invitation lower hash env user token t ≢ (ok m, u)
  unfolding accept_invitation check_acceptable get_invitation_by_token_hash
  spent_refused env user token m t u s e =
      elim (Option-cases (first (keep_if (λ i. str_eq i.token_hash (hash token)) t.invitations))) [
        | inl missing ↦ ground arith
        | inr (i, found) ↦ ground arith
      ]

  -- Once a token has been accepted, then after any history of requests of any users nobody can
  -- accept it again, at any time.
  pub accept_invitation-single_use :
      (env env' : Env) (user user' : AuthenticatedUser) (token : String) (m m' : Membership)
      (t u v : Tables) (rs : List (Env × AuthenticatedUser × Request))
      → accept_invitation lower hash env user token t ≡ (ok m, u)
      → accept_invitation lower hash env' user' token (serve_all lower hash rs u) ≢ (ok m', v)
  accept_invitation-single_use env env' user user' token m m' t u v rs e =
      spent_refused env' user' token m' (serve_all lower hash rs u) v
        ((serve_all-Holds rs (hash token) u).0 (accept-spends env user token m t u e))

  accept-invitable :
      (env : Env) (user : AuthenticatedUser) (token : String) (m : Membership) (t u : Tables)
      → IsModest t.invitations
      → accept_invitation lower hash env user token t ≡ (ok m, u)
      → is_invitable m.role ≡ true
  unfolding accept_invitation check_acceptable get_invitation_by_token_hash new_membership
  accept-invitable env user token m t u h e =
      elim (Option-cases (first (keep_if (λ i. str_eq i.token_hash (hash token)) t.invitations))) [
        | inl missing ↦ absurd (ground arith)
        | inr (i, found) ↦ ground (arith, found-IsModest (hash token) t.invitations i found h)
      ]

  -- From tables whose invitations are for admins and members, after any history of requests, whoever
  -- accepts an invitation becomes an admin or a member, never an owner.
  pub accept_invitation-invitable :
      (rs : List (Env × AuthenticatedUser × Request)) (env : Env) (user : AuthenticatedUser)
      (token : String) (m : Membership) (t u : Tables)
      → IsModest t.invitations
      → accept_invitation lower hash env user token (serve_all lower hash rs t) ≡ (ok m, u)
      → is_invitable m.role ≡ true
  accept_invitation-invitable rs env user token m t u h e =
      accept-invitable env user token m (serve_all lower hash rs t) u
        ((serve_all-Holds rs "" t).1 h) e
