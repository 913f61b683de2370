-- ===== src/Tenants/Owners.antt =====
-- An organization that has an owner keeps one, whatever a request does.
use saas_genai_starter.Common.{
  ℕ, ◌≡◌, ◌⊎◌, inl, inr, Bool, true, false, some, arith, ◌==◌, any, Bool-cases, Option-cases,
  ==_iff,
}
use saas_genai_starter.Core.Action.{ok}
use saas_genai_starter.Tenants.Models.{Role, owner, is_owner, Membership, Tables}
use saas_genai_starter.Tenants.Repository.{get_membership, set_role, delete_membership}
use saas_genai_starter.Tenants.Service.{
  AuthenticatedUser, require_membership, require_rank, ensure_not_last_owner, check_role_change,
  update_member_role, check_removal, remove_member,
}
use saas_genai_starter.Tenants.Rows.{
  owner_of, owner_but, Unique, set_rows-owner_but, drop_rows-owner_but, set_rows-owner,
  owner_but_elsewhere, owner_but_of_target, any-list_members,
}

abbrev pub Owned : ℕ → Tables → Type 0
Owned o t = any (owner_of o) t.memberships ≡ true

-- A check raises or passes, and leaves the tables alone.
check_role_change_lem :
    (org user : ℕ) (a b r : Role) (t : Tables)
    → ((check_role_change org user a b r t).1 ≡ t)
      × ((check_role_change org user a b r t).0 ≡ ok tt
          → (is_owner b ≡ false)
            ⊎ (is_owner r ≡ true)
            ⊎ (any (owner_but org org user) t.memberships ≡ true))
unfolding check_role_change ensure_not_last_owner
check_role_change_lem org user a b r t = ground (arith, any-list_members org user t)

owner_but_anyway :
    (o org user : ℕ) (b : Membership) (t : Tables)
    → Unique t.memberships
    → get_membership org user t ≡ some b
    → Owned o t
    → (is_owner b.role ≡ false) ⊎ (any (owner_but org org user) t.memberships ≡ true)
    → any (owner_but o org user) t.memberships ≡ true
unfolding get_membership
owner_but_anyway o org user b t u e h (inl plain) =
    owner_but_of_target o org user t.memberships b u e plain h
owner_but_anyway o org user b t u e h (inr left) = elim (Bool-cases (o == org)) [
  | inl same ↦ rw ((==_iff o org).0 same) left
  | inr differ ↦ owner_but_elsewhere o org user t.memberships (λ e. ground arith) h
]

set_role-Owned :
    (o org user : ℕ) (r : Role) (t : Tables)
    → Owned o t
    → (is_owner r ≡ true) ⊎ (any (owner_but o org user) t.memberships ≡ true)
    → Owned o (set_role org user r t)
unfolding set_role
set_role-Owned o org user owner t h k = set_rows-owner o org user t.memberships h
set_role-Owned o org user r t h (inr k) = set_rows-owner_but o org user r t.memberships k
set_role-Owned o org user r t h (inl k) = ground arith

-- A change of role leaves every organization that has an owner with an owner.
pub update_member_role-Owned :
    (actor : AuthenticatedUser) (o org user : ℕ) (r : Role) (t : Tables)
    → Unique t.memberships
    → Owned o t
    → Owned o (update_member_role actor org user r t).1
unfolding update_member_role require_membership require_rank
update_member_role-Owned actor o org user r t u h =
    elim (Option-cases (get_membership org actor.user_id t)) [
      | inl missing ↦ ground arith
      | inr (a, found) ↦ elim (Option-cases (get_membership org user t)) [
        | inl none_such ↦ ground arith
        | inr (b, target) ↦ ground (
          arith,
          check_role_change_lem org user a.role b.role r t,
          owner_but_anyway o org user b t u target h,
          set_role-Owned o org user r t h,
        )
      ]
    ]

check_removal_lem :
    (org user : ℕ) (self : Bool) (a b : Role) (t : Tables)
    → ((check_removal org user self a b t).1 ≡ t)
      × ((check_removal org user self a b t).0 ≡ ok tt
          → (is_owner b ≡ false) ⊎ (any (owner_but org org user) t.memberships ≡ true))
unfolding check_removal ensure_not_last_owner require_rank
check_removal_lem org user self a b t = ground (arith, any-list_members org user t)

delete_membership-Owned :
    (o org user : ℕ) (t : Tables)
    → any (owner_but o org user) t.memberships ≡ true
    → Owned o (delete_membership org user t)
unfolding delete_membership
delete_membership-Owned o org user t k = drop_rows-owner_but o org user t.memberships k

-- A removal leaves every organization that has an owner with an owner.
pub remove_member-Owned :
    (actor : AuthenticatedUser) (o org user : ℕ) (t : Tables)
    → Unique t.memberships
    → Owned o t
    → Owned o (remove_member actor org user t).1
unfolding remove_member require_membership
remove_member-Owned actor o org user t u h =
    elim (Option-cases (get_membership org actor.user_id t)) [
      | inl missing ↦ ground arith
      | inr (a, found) ↦ elim (Option-cases (get_membership org user t)) [
        | inl none_such ↦ ground arith
        | inr (b, target) ↦ ground (
          arith,
          check_removal_lem org user (actor.user_id == user) a.role b.role t,
          owner_but_anyway o org user b t u target h,
          delete_membership-Owned o org user t,
        )
      ]
    ]
