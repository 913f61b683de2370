-- ===== src/Tenants/Invitations.antt =====
-- `TenantService` of apps/api/src/domains/tenants/service.py: invitations. `lower` is `str.lower` and
-- `hash` is the SHA-256 of a text.
use saas_genai_starter.Common.{
  ℕ, ◌+◌, Bool, false, not, ◌||◌, Option, none, some, List, map, String, ltb, str_eq, any, is_some,
}
use saas_genai_starter.Core.Errors.{bad_request, forbidden, not_found, conflict}
use saas_genai_starter.Core.Action.{pure, gets, or_raise, raise_if, modify, ◌>>=◌, ◌>>◌}
use saas_genai_starter.Tenants.Models.{Role, admin, is_invitable, Membership, Invitation, Profile}
use saas_genai_starter.Tenants.Repository.{
  get_membership, list_members, insert_membership, add_invitation, get_invitation,
  get_invitation_by_token_hash, list_pending_invitations, set_accepted, set_revoked, resolve_users,
}
use saas_genai_starter.Tenants.Service.{
  AuthenticatedUser, Env, Db, require_membership, require_rank, new_membership,
}

-- INVITATION_TTL, seven days
abbrev pub invitation_ttl : ℕ
invitation_ttl = 604800

-- the truth value of an optional text
abbrev pub truthy : Option String → Bool
truthy none = false
truthy (some s) = not (str_eq s "")

abbrev pub text_or_empty : Option String → String
text_or_empty none = ""
text_or_empty (some s) = s

module _ (lower hash : String → String) where
  -- a profile of the organization has this address
  unfoldable pub has_email : String → List Profile → Bool
  has_email address = any (λ p. str_eq (lower (text_or_empty p.email)) address)

  unfoldable pub invitation : Env → AuthenticatedUser → ℕ → String → Role → Invitation
  invitation env actor org email role = record {
    id = env.new_invitation;
    organization_id = org;
    email = lower email;
    role = role;
    token_hash = hash env.token;
    invited_by = actor.user_id;
    expires_at = env.now + invitation_ttl;
    accepted_at = none;
    revoked_at = none;
    created_at = env.now;
  }

  unfoldable pub create_invitation :
      Env → AuthenticatedUser → ℕ → String → Role → Db (Invitation × String)
  unfolding has_email invitation
  create_invitation env actor org email role = do
    a ← require_membership org actor.user_id
    require_rank a.role admin
    raise_if (not (is_invitable role)) (bad_request "Only admin or member roles can be invited")
    members ← gets (list_members org)
    profiles ← gets (resolve_users (map (λ m. m.user_id) members))
    raise_if (has_email (lower email) profiles) (conflict "This user is already a member")
    add_invitation (invitation env actor org email role)
    pure (invitation env actor org email role, env.token)

  -- the checks of `accept_invitation` on the row itself
  unfoldable pub check_acceptable : ℕ → AuthenticatedUser → Invitation → Db (Unit {0})
  check_acceptable now user i = do
    raise_if (is_some i.revoked_at) (bad_request "This invitation has been revoked")
    raise_if (is_some i.accepted_at) (bad_request "This invitation has already been used")
    raise_if (ltb i.expires_at now) (bad_request "This invitation has expired")
    raise_if (not (truthy user.email) || not (str_eq (lower (text_or_empty user.email)) i.email))
        (forbidden "This invitation was issued for another email address")

  unfoldable pub accept_invitation : Env → AuthenticatedUser → String → Db Membership
  unfolding check_acceptable new_membership
  accept_invitation env user token = do
    found ← gets (get_invitation_by_token_hash (hash token))
    i ← or_raise found (bad_request "Invalid invitation")
    check_acceptable env.now user i
    old ← gets (get_membership i.organization_id user.user_id)
    raise_if (is_some old) (conflict "You are already a member of this organization")
    modify (set_accepted (hash token) env.now)
    insert_membership (new_membership env i.organization_id user.user_id i.role)
    pure (new_membership env i.organization_id user.user_id i.role)

unfoldable pub list_invitations : ℕ → AuthenticatedUser → ℕ → Db (List Invitation)
list_invitations now actor org = do
  a ← require_membership org actor.user_id
  require_rank a.role admin
  gets (list_pending_invitations now org)

unfoldable pub revoke_invitation : ℕ → AuthenticatedUser → ℕ → ℕ → Db (Unit {0})
revoke_invitation now actor org id = do
  a ← require_membership org actor.user_id
  require_rank a.role admin
  found ← gets (get_invitation org id)
  i ← or_raise found (not_found "Invitation not found")
  raise_if (is_some i.revoked_at || is_some i.accepted_at) (not_found "Invitation not found")
  modify (set_revoked org id now)
