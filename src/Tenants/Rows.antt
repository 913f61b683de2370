-- ===== src/Tenants/Rows.antt =====
-- What the updates of the membership rows keep.
use saas_genai_starter.Common.{
  ℕ, ◌≡◌, ◌≢◌, refl, ◌∙◌, Bool, true, false, not, ◌&&◌, ◌||◌, some, List, [], ◌∷◌, ◌++◌, map, arith,
  ◌==◌, if◌then◌else◌, keep_if, first, any,
}
use saas_genai_starter.Core.Order.{any-order_by}
use saas_genai_starter.Tenants.Models.{Role, owner, is_owner, Membership, Tables}
use saas_genai_starter.Tenants.Repository.{of_key, list_members}
use saas_genai_starter.Tenants.Service.{other_owner}

-- an owner's row of the organization
abbrev pub owner_of : ℕ → Membership → Bool
owner_of o m = m.organization_id == o && is_owner m.role

-- an owner's row of the organization `o` that is not the row of `user` in `org`
abbrev pub owner_but : ℕ → ℕ → ℕ → Membership → Bool
owner_but o org user m = owner_of o m && not (of_key org user m)

-- No two rows have one organization and user.
abbrev pub Unique : List Membership → Type 0
Unique [] = Unit
Unique (m ∷ ms) = (any (of_key m.organization_id m.user_id) ms ≡ false) × Unique ms

abbrev pub set_rows : ℕ → ℕ → Role → List Membership → List Membership
set_rows org user r = map (λ m. if of_key org user m then record m { role = r } else m)

abbrev pub drop_rows : ℕ → ℕ → List Membership → List Membership
drop_rows org user = keep_if (λ m. not (of_key org user m))

module _ (o org user : ℕ) where
  pub set_rows-owner_but :
      (r : Role) (ms : List Membership)
      → any (owner_but o org user) ms ≡ true
      → any (owner_of o) (set_rows org user r ms) ≡ true
  set_rows-owner_but r [] h = h
  set_rows-owner_but r (m ∷ ms) h = ground (arith, set_rows-owner_but r ms)

  pub drop_rows-owner_but :
      (ms : List Membership)
      → any (owner_but o org user) ms ≡ true
      → any (owner_of o) (drop_rows org user ms) ≡ true
  drop_rows-owner_but [] h = h
  drop_rows-owner_but (m ∷ ms) h = ground (arith, drop_rows-owner_but ms)

  pub set_rows-owner :
      (ms : List Membership)
      → any (owner_of o) ms ≡ true
      → any (owner_of o) (set_rows org user owner ms) ≡ true
  set_rows-owner [] h = h
  set_rows-owner (m ∷ ms) h = ground (arith, set_rows-owner ms)

  pub owner_but_elsewhere :
      (ms : List Membership)
      → o ≢ org
      → any (owner_of o) ms ≡ true
      → any (owner_but o org user) ms ≡ true
  owner_but_elsewhere [] ne h = h
  owner_but_elsewhere (m ∷ ms) ne h = ground (arith, owner_but_elsewhere ms ne)

  no_key-owner_but :
      (ms : List Membership)
      → any (of_key org user) ms ≡ false
      → any (owner_of o) ms ≡ true
      → any (owner_but o org user) ms ≡ true
  no_key-owner_but [] e h = h
  no_key-owner_but (m ∷ ms) e h = ground (arith, no_key-owner_but ms)

  pub owner_but_of_target :
      (ms : List Membership) (target : Membership)
      → Unique ms
      → first (keep_if (of_key org user) ms) ≡ some target
      → is_owner target.role ≡ false
      → any (owner_of o) ms ≡ true
      → any (owner_but o org user) ms ≡ true
  owner_but_of_target [] target u e plain h = h
  owner_but_of_target (m ∷ ms) target u e plain h =
      ground (arith, no_key-owner_but ms, owner_but_of_target ms target u.1)

any-other_owner :
    (org user : ℕ) (ms : List Membership)
    → any (other_owner user) (keep_if (λ m. m.organization_id == org) ms)
      ≡ any (owner_but org org user) ms
any-other_owner org user [] = refl
any-other_owner org user (m ∷ ms) = ground (arith, any-other_owner org user ms)

-- What `ensure_not_last_owner` tests.
pub any-list_members :
    (org user : ℕ) (t : Tables)
    → any (other_owner user) (list_members org t) ≡ any (owner_but org org user) t.memberships
unfolding list_members
any-list_members org user t =
    any-order_by (λ m. m.created_at) (other_owner user)
      (keep_if (λ m. m.organization_id == org) t.memberships)
    ∙ any-other_owner org user t.memberships

module _ (org user : ℕ) where
  set_rows-of_key :
      (r : Role) (o u : ℕ) (ms : List Membership)
      → any (of_key o u) (set_rows org user r ms) ≡ any (of_key o u) ms
  set_rows-of_key r o u [] = refl
  set_rows-of_key r o u (m ∷ ms) = ground (arith, set_rows-of_key r o u ms)

  pub set_rows-Unique :
      (r : Role) (ms : List Membership) → Unique ms → Unique (set_rows org user r ms)
  set_rows-Unique r [] h = tt
  set_rows-Unique r (m ∷ ms) h =
      ground (arith, set_rows-of_key r m.organization_id m.user_id ms, set_rows-Unique r ms h.1)

  drop_rows-of_key :
      (o u : ℕ) (ms : List Membership)
      → any (of_key o u) ms ≡ false
      → any (of_key o u) (drop_rows org user ms) ≡ false
  drop_rows-of_key o u [] h = h
  drop_rows-of_key o u (m ∷ ms) h = ground (arith, drop_rows-of_key o u ms)

  pub drop_rows-Unique : (ms : List Membership) → Unique ms → Unique (drop_rows org user ms)
  drop_rows-Unique [] h = tt
  drop_rows-Unique (m ∷ ms) h =
      ground (arith, drop_rows-of_key m.organization_id m.user_id ms, drop_rows-Unique ms h.1)

module _ (n : Membership) where
  append-of_key :
      (o u : ℕ) (ms : List Membership)
      → any (of_key o u) (ms ++ n ∷ []) ≡ (any (of_key o u) ms || of_key o u n)
  append-of_key o u [] = ground arith
  append-of_key o u (m ∷ ms) = ground (arith, append-of_key o u ms)

  pub append-Unique :
      (ms : List Membership)
      → Unique ms
      → any (of_key n.organization_id n.user_id) ms ≡ false
      → Unique (ms ++ n ∷ [])
  append-Unique [] h e = (refl, tt)
  append-Unique (m ∷ ms) h e =
      ground (arith, append-of_key m.organization_id m.user_id ms, append-Unique ms h.1)

  pub append-owner_of :
      (o : ℕ) (ms : List Membership)
      → any (owner_of o) ms ≡ true
      → any (owner_of o) (ms ++ n ∷ []) ≡ true
  append-owner_of o [] h = cc
  append-owner_of o (m ∷ ms) h = ground (arith, append-owner_of o ms)
