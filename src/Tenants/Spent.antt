-- ===== src/Tenants/Spent.antt =====
-- What the operations keep of the invitation rows: acceptances and roles.
use saas_genai_starter.Common.{
  ℕ, ◌≡◌, refl, inl, inr, Bool, true, false, ◌&&◌, Option, none, some, List, [], ◌∷◌, ◌++◌, map,
  arith, String, ◌==◌, str_eq, if◌then◌else◌, keep_if, first, any, Bool-cases, is_some, All,
}
use saas_genai_starter.Tenants.Models.{is_invitable, Invitation, Tables}
use saas_genai_starter.Tenants.Repository.{
  add_invitation, set_accepted, set_revoked, get_invitation_by_token_hash,
}

abbrev pub spent_row : Option Invitation → Bool
spent_row none = false
spent_row (some i) = is_some i.accepted_at

-- The row that a token's hash finds has been accepted.
abbrev pub IsSpent : String → List Invitation → Type 0
IsSpent h is = spent_row (first (keep_if (λ i. str_eq i.token_hash h) is)) ≡ true

-- Every invitation is for an admin or a member.
abbrev pub IsModest : List Invitation → Type 0
IsModest = All (λ i. is_invitable i.role ≡ true)

-- A change that keeps hashes and roles, and unsets no acceptance.
module _ (f : Invitation → Invitation)
    (same_hash : (i : Invitation) → (f i).token_hash ≡ i.token_hash)
    (same_role : (i : Invitation) → (f i).role ≡ i.role)
    (still : (i : Invitation)
      → is_some i.accepted_at ≡ true
      → is_some (f i).accepted_at ≡ true) where
  map-IsSpent : (h : String) (is : List Invitation) → IsSpent h is → IsSpent h (map f is)
  map-IsSpent h [] e = e
  map-IsSpent h (i ∷ is) e = rw (same_hash i) (elim (Bool-cases (str_eq i.token_hash h)) [
    | inl hit ↦ rw hit (still i (rw hit at e))
    | inr miss ↦ rw miss (map-IsSpent h is (rw miss at e))
  ])

  map-IsModest : (is : List Invitation) → IsModest is → IsModest (map f is)
  map-IsModest [] h = tt
  map-IsModest (i ∷ is) h = (rw (same_role i) h.0, map-IsModest is h.1)

pub append-IsSpent :
    (h : String) (n : Invitation) (is : List Invitation) → IsSpent h is → IsSpent h (is ++ n ∷ [])
append-IsSpent h n [] e = cc
append-IsSpent h n (i ∷ is) e = ground (arith, append-IsSpent h n is)

pub append-IsModest :
    (n : Invitation) (is : List Invitation)
    → is_invitable n.role ≡ true
    → IsModest is
    → IsModest (is ++ n ∷ [])
append-IsModest n [] e h = (e, tt)
append-IsModest n (i ∷ is) e h = (h.0, append-IsModest n is e h.1)

-- Spent invitations stay spent, and modest ones modest.
abbrev pub Holds : String → Tables → Tables → Type 0
Holds h t u =
    (IsSpent h t.invitations → IsSpent h u.invitations)
    × (IsModest t.invitations → IsModest u.invitations)

pub same-Holds : (h : String) (t u : Tables) → u.invitations ≡ t.invitations → Holds h t u
same-Holds h t u e = (λ k. rw e k, λ k. rw e k)

pub set_accepted-Holds : (h k : String) (now : ℕ) (t : Tables) → Holds h t (set_accepted k now t)
unfolding set_accepted
set_accepted-Holds h k now t =
    let f : Invitation → Invitation =
      λ i. if str_eq i.token_hash k then record i { accepted_at = some now } else i in
    (
      map-IsSpent f (λ i. ground arith) (λ i. ground arith) (λ i e. ground arith) h t.invitations,
      map-IsModest f (λ i. ground arith) (λ i. ground arith) (λ i e. ground arith) t.invitations,
    )

pub set_revoked-Holds :
    (h : String) (org id now : ℕ) (t : Tables) → Holds h t (set_revoked org id now t)
unfolding set_revoked
set_revoked-Holds h org id now t =
    let f : Invitation → Invitation = λ i.
      if i.organization_id == org && i.id == id then record i { revoked_at = some now } else i in
    (
      map-IsSpent f (λ i. ground arith) (λ i. ground arith) (λ i e. ground arith) h t.invitations,
      map-IsModest f (λ i. ground arith) (λ i. ground arith) (λ i e. ground arith) t.invitations,
    )

pub add_invitation-Holds :
    (h : String) (n : Invitation) (t : Tables)
    → is_invitable n.role ≡ true
    → Holds h t (add_invitation n t).1
unfolding add_invitation
add_invitation-Holds h n t e =
    elim (Bool-cases (any (λ j. str_eq j.token_hash n.token_hash) t.invitations)) [
      | inl taken ↦ rw taken (same-Holds h t t refl)
      | inr unused ↦ rw unused (append-IsSpent h n t.invitations, append-IsModest n t.invitations e)
    ]

-- The row that a lookup finds, after it is accepted, is spent.
found-IsSpent :
    (h : String) (now : ℕ) (is : List Invitation) (i : Invitation)
    → first (keep_if (λ i. str_eq i.token_hash h) is) ≡ some i
    → IsSpent h
        (map (λ i. if str_eq i.token_hash h then record i { accepted_at = some now } else i) is)
found-IsSpent h now [] i e = cc
found-IsSpent h now (j ∷ is) i e = elim (Bool-cases (str_eq j.token_hash h)) [
  | inl hit ↦ rw (hit, hit) refl
  | inr miss ↦ rw (miss, miss) (found-IsSpent h now is i (rw miss at e))
]

pub set_accepted-IsSpent :
    (h : String) (now : ℕ) (t : Tables) (i : Invitation)
    → get_invitation_by_token_hash h t ≡ some i
    → IsSpent h (set_accepted h now t).invitations
unfolding set_accepted get_invitation_by_token_hash
set_accepted-IsSpent h now t i e = found-IsSpent h now t.invitations i e

pub found-IsModest :
    (h : String) (is : List Invitation) (i : Invitation)
    → first (keep_if (λ i. str_eq i.token_hash h) is) ≡ some i
    → IsModest is
    → is_invitable i.role ≡ true
found-IsModest h [] i e m = cc
found-IsModest h (j ∷ is) i e m = ground (arith, found-IsModest h is i)
