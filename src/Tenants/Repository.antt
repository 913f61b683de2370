-- ===== src/Tenants/Repository.antt =====
-- `TenantRepository`: apps/api/src/domains/tenants/repository.py. A statement is a filter over the
-- rows of its table, in the order that it asks for; an update changes the rows of one key.
use saas_genai_starter.Common.{
  ℕ, Bool, not, ◌&&◌, Option, none, some, List, [], ◌∷◌, ◌++◌, map, String, ltb, ◌==◌, str_eq,
  if◌then◌else◌, keep_if, first, any, is_some,
}
use saas_genai_starter.Core.Order.{order_by}
use saas_genai_starter.Core.Action.{Action, crash, Result}
use saas_genai_starter.Tenants.Models.{Role, Organization, Membership, Invitation, Profile, Tables}

abbrev pub of_key : ℕ → ℕ → Membership → Bool
of_key org user m = m.organization_id == org && m.user_id == user

-- `db.get(Organization, id)`
unfoldable pub get_organization : ℕ → Tables → Option Organization
get_organization org t = first (keep_if (λ o. o.id == org) t.organizations)

creation_time : Tables → Membership → ℕ
unfolding get_organization
creation_time t m = elim (get_organization m.organization_id t) [ none ↦ 0 | some o ↦ o.created_at ]

-- the inner join drops a row whose organization is gone
unfoldable pub list_memberships_for_user : ℕ → Tables → List Membership
unfolding creation_time
list_memberships_for_user user t = order_by (creation_time t) (
    keep_if (λ m. m.user_id == user && is_some (get_organization m.organization_id t))
      t.memberships)

unfoldable pub get_membership : ℕ → ℕ → Tables → Option Membership
get_membership org user t = first (keep_if (of_key org user) t.memberships)

unfoldable pub list_members : ℕ → Tables → List Membership
list_members org t =
    order_by (λ m. m.created_at) (keep_if (λ m. m.organization_id == org) t.memberships)

-- The unique constraint on (organization_id, user_id) refuses a second row at the flush.
unfoldable pub insert_membership : Membership → Action Tables (Unit {0})
insert_membership m t =
    if any (of_key m.organization_id m.user_id) t.memberships
    then (crash "IntegrityError", t)
    else (Result.ok tt, record t { memberships = t.memberships ++ m ∷ [] })

-- the role of a loaded row, written at the commit
unfoldable pub set_role : ℕ → ℕ → Role → Tables → Tables
set_role org user r t = record t {
  memberships = map (λ m. if of_key org user m then record m { role = r } else m) t.memberships;
}

-- the organization and the membership of its owner, in one flush
unfoldable pub create_organization : Organization → Membership → Action Tables (Unit {0})
unfolding insert_membership
create_organization o m t =
    insert_membership m (record t { organizations = t.organizations ++ o ∷ [] })

unfoldable pub delete_membership : ℕ → ℕ → Tables → Tables
delete_membership org user t = record t {
  memberships = keep_if (λ m. not (of_key org user m)) t.memberships;
}

-- The unique constraint on token_hash refuses a second row at the flush.
unfoldable pub add_invitation : Invitation → Action Tables (Unit {0})
add_invitation i t =
    if any (λ j. str_eq j.token_hash i.token_hash) t.invitations
    then (crash "IntegrityError", t)
    else (Result.ok tt, record t { invitations = t.invitations ++ i ∷ [] })

unfoldable pub get_invitation : ℕ → ℕ → Tables → Option Invitation
get_invitation org id t =
    first (keep_if (λ i. i.organization_id == org && i.id == id) t.invitations)

unfoldable pub get_invitation_by_token_hash : String → Tables → Option Invitation
get_invitation_by_token_hash hash t = first (keep_if (λ i. str_eq i.token_hash hash) t.invitations)

abbrev pub is_pending : ℕ → Invitation → Bool
is_pending now i = not (is_some i.accepted_at) && not (is_some i.revoked_at) && ltb now i.expires_at

unfoldable pub list_pending_invitations : ℕ → ℕ → Tables → List Invitation
list_pending_invitations now org t =
    order_by (λ i. i.created_at)
      (keep_if (λ i. i.organization_id == org && is_pending now i) t.invitations)

-- the attributes of loaded rows, written at the commit
unfoldable pub set_accepted : String → ℕ → Tables → Tables
set_accepted hash now t = record t {
  invitations =
      map (λ i. if str_eq i.token_hash hash then record i { accepted_at = some now } else i)
        t.invitations;
}

unfoldable pub set_revoked : ℕ → ℕ → ℕ → Tables → Tables
set_revoked org id now t = record t {
  invitations =
      map
        (λ i.
          if i.organization_id == org && i.id == id then record i { revoked_at = some now } else i)
        t.invitations;
}

unfoldable pub set_name : ℕ → String → Tables → Tables
set_name org name t = record t {
  organizations = map (λ o. if o.id == org then record o { name = name } else o) t.organizations;
}

-- the profiles of these users
unfoldable pub resolve_users : List ℕ → Tables → List Profile
resolve_users ids t = keep_if (λ p. any (λ i. p.id == i) ids) t.profiles
