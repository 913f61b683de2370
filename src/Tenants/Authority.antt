-- ===== src/Tenants/Authority.antt =====
-- Who may change the members of an organization.
use saas_genai_starter.Common.{
  ℕ, ◌≡◌, ◌⊎◌, inl, inr, Bool, true, false, not, ◌&&◌, some, arith, Option-cases,
}
use saas_genai_starter.Common.Int.{ltb_ℤ}
use saas_genai_starter.Core.Action.{ok}
use saas_genai_starter.Tenants.Models.{Role, owner, admin, rank, is_owner, Membership, Tables}
use saas_genai_starter.Tenants.Repository.{get_membership, set_role, delete_membership}
use saas_genai_starter.Tenants.Service.{
  AuthenticatedUser, require_membership, require_rank, ensure_not_last_owner, check_role_change,
  update_member_role, check_removal, remove_member,
}

-- An owner may change any role into any other; an admin, any but an owner's, and not into owner.
abbrev pub may_change : Role → Role → Role → Bool
may_change owner target new_role = true
may_change admin target new_role = not (is_owner target) && not (is_owner new_role)
may_change actor target new_role = false

-- An admin or owner may remove a member of a lower role.
abbrev pub may_remove : Role → Role → Bool
may_remove owner target = ltb_ℤ (rank target) (rank owner)
may_remove admin target = ltb_ℤ (rank target) (rank admin)
may_remove actor target = false

-- A change of role that succeeds was made by a member of the organization on another or the same
-- member, both of whom the role rule allows it, and it sets the role of that one row.
pub update_member_role_authority :
    (actor : AuthenticatedUser) (org user : ℕ) (r : Role) (m : Membership) (t u : Tables)
    → update_member_role actor org user r t ≡ (ok m, u)
    → (a : Membership) × (b : Membership) × (get_membership org actor.user_id t ≡ some a)
      × (get_membership org user t ≡ some b)
      × (may_change a.role b.role r ≡ true)
      × (m ≡ record b { role = r })
      × (u ≡ set_role org user r t)
unfolding update_member_role require_membership require_rank check_role_change ensure_not_last_owner
update_member_role_authority actor org user r m t u e =
    elim (Option-cases (get_membership org actor.user_id t)) [
      | inl missing ↦ absurd (ground arith)
      | inr (a, found) ↦ elim (Option-cases (get_membership org user t)) [
        | inl none_such ↦ absurd (ground arith)
        | inr (b, target) ↦ (a, b, found, target, ground arith, ground arith, ground arith)
      ]
    ]

-- A removal that succeeds was made by the member itself, or by an owner or admin of a higher role
-- than the member's; and it deletes that one row.
pub remove_member_authority :
    (actor : AuthenticatedUser) (org user : ℕ) (t u : Tables)
    → remove_member actor org user t ≡ (ok tt, u)
    → (a : Membership) × (b : Membership) × (get_membership org actor.user_id t ≡ some a)
      × (get_membership org user t ≡ some b)
      × ((actor.user_id ≡ user) ⊎ (may_remove a.role b.role ≡ true))
      × (u ≡ delete_membership org user t)
unfolding remove_member require_membership require_rank check_removal ensure_not_last_owner
remove_member_authority actor org user t u e =
    elim (Option-cases (get_membership org actor.user_id t)) [
      | inl missing ↦ absurd (ground arith)
      | inr (a, found) ↦ elim (Option-cases (get_membership org user t)) [
        | inl none_such ↦ absurd (ground arith)
        | inr (b, target) ↦ (a, b, found, target, ground arith, ground arith)
      ]
    ]
