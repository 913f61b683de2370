-- ===== src/Billing/Replay.antt =====
-- Replayed deliveries change nothing more; of two syncs of one customer the later one decides.
use saas_genai_starter.Common.{
  ℕ, ◌≡◌, refl, sym, subst, ◌∙◌, Bool, true, false, ◌&&◌, Option, none, some, List, [], ◌∷◌, arith,
  String, ◌==◌, str_eq_iff, if◌then◌else◌, keep_if, first, Option-cases, Bool-cases, inl, inr,
}
use saas_genai_starter.Tenants.Models.{Organization}
use saas_genai_starter.Billing.Events.{
  Object, Event, subscription_updated, subscription_deleted, truthy, same_text, org_for_customer,
  write_org, synced, apply_to, handle_event,
}

-- A row that a test finds is found again after it is written, if its new form passes the test.
pub first-write_org :
    (p : Organization → Bool) (o n : Organization) (orgs : List Organization)
    → first (keep_if p orgs) ≡ some o
    → n.id ≡ o.id
    → p n ≡ true
    → first (keep_if p (write_org n orgs)) ≡ some n
unfolding write_org
first-write_org p o n [] e same pass = cc
first-write_org p o n (x ∷ orgs) e same pass = elim (Bool-cases (x.id == n.id)) [
  | inl hit ↦ rw (hit, pass) refl
  | inr miss ↦ elim (Bool-cases (p x)) [
    | inl found ↦ absurd (ground arith)
    | inr other ↦ rw (miss, other) (first-write_org p o n orgs (rw other at e) same pass)
  ]
]

write_org-write_org :
    (m n : Organization) (orgs : List Organization)
    → m.id ≡ n.id
    → write_org n (write_org m orgs) ≡ write_org n orgs
unfolding write_org
write_org-write_org m n [] same = refl
write_org-write_org m n (x ∷ orgs) same = ground (arith, write_org-write_org m n orgs same)

pub first-passes :
    (p : Organization → Bool) (o : Organization) (orgs : List Organization)
    → first (keep_if p orgs) ≡ some o
    → p o ≡ true
first-passes p o [] e = cc
first-passes p o (x ∷ orgs) e = elim (Bool-cases (p x)) [
  | inl found ↦ ground arith
  | inr other ↦ first-passes p o orgs (rw other at e)
]

-- Writing twice what a lookup finds is writing it once, where the second change makes nothing of the
-- first.
module _ (find : List Organization → Option Organization) (p : Organization → Bool)
    (is_find : (orgs : List Organization) → find orgs ≡ first (keep_if p orgs))
    (f g : Organization → Organization) (same_f : (o : Organization) → (f o).id ≡ o.id)
    (same_g : (o : Organization) → (g o).id ≡ o.id)
    (passes : (o : Organization) → p o ≡ true → p (f o) ≡ true)
    (over : (o : Organization) → g (f o) ≡ g o) where
  pub apply_to-over :
      (orgs : List Organization)
      → let after = apply_to f (find orgs) orgs in
        apply_to g (find after) after ≡ apply_to g (find orgs) orgs
  apply_to-over orgs = elim (Option-cases (find orgs)) [
    | inl missing ↦ rw missing (rw missing refl)
    | inr (o, found) ↦
        let at_o = sym (is_find orgs) ∙ found in
        let again =
          is_find (write_org (f o) orgs)
          ∙ first-write_org p o (f o) orgs at_o (same_f o)
              (passes o (first-passes p o orgs at_o)) in
        rw (found, again, over o) (write_org-write_org (f o) (g o) orgs (same_f o ∙ sym (same_g o)))
  ]

abbrev pub customer_test : Option String → Organization → Bool
customer_test c o = truthy c && same_text o.stripe_customer_id c

pub none_pass : (orgs : List Organization) → first (keep_if (λ o. false) orgs) ≡ none
none_pass [] = refl
none_pass (o ∷ orgs) = none_pass orgs

-- A choice between two lookups is one lookup.
pub first_choice :
    (b : Bool) (p q : Organization → Bool) (orgs : List Organization)
    → (if b then first (keep_if p orgs) else first (keep_if q orgs))
      ≡ first (keep_if (λ o. if b then p o else q o) orgs)
first_choice true p q orgs = refl
first_choice false p q orgs = refl

first_guarded :
    (b : Bool) (p : Organization → Bool) (orgs : List Organization)
    → (if b then first (keep_if p orgs) else none) ≡ first (keep_if (λ o. b && p o) orgs)
first_guarded true p orgs = refl
first_guarded false p orgs = sym (none_pass orgs)

pub customer_find :
    (c : Option String) (orgs : List Organization)
    → org_for_customer c orgs ≡ first (keep_if (customer_test c) orgs)
unfolding org_for_customer
customer_find c orgs = first_guarded (truthy c) (λ o. same_text o.stripe_customer_id c) orgs

pub same_text_self : (c : Option String) → truthy c ≡ true → same_text c c ≡ true
same_text_self none t = t
same_text_self (some s) t = (str_eq_iff s s).1 refl

pub synced_passes :
    (c status id : Option String) (o : Organization)
    → customer_test c o ≡ true
    → customer_test c (synced status id o) ≡ true
unfolding synced
synced_passes c status id o h = h

-- The event that syncs a subscription: an update, or its deletion.
abbrev pub sync_event : Bool → Object → Event
sync_event true obj = subscription_deleted obj
sync_event false obj = subscription_updated obj

abbrev synced_by : Bool → Object → Organization → Organization
synced_by true obj = synced (some "canceled") obj.id
synced_by false obj = synced obj.status obj.id

synced_by-over :
    (d d' : Bool) (obj obj' : Object) (o : Organization)
    → synced_by d' obj' (synced_by d obj o) ≡ synced_by d' obj' o
unfolding synced
synced_by-over true true obj obj' o = refl
synced_by-over true false obj obj' o = refl
synced_by-over false true obj obj' o = refl
synced_by-over false false obj obj' o = refl

synced_by_keeps :
    (d : Bool) (obj : Object) (o : Organization)
    → ((synced_by d obj o).id ≡ o.id)
      × ((synced_by d obj o).stripe_customer_id ≡ o.stripe_customer_id)
unfolding synced
synced_by_keeps true obj o = (refl, refl)
synced_by_keeps false obj o = (refl, refl)

module _ (parse_uuid : String → Option ℕ) where
  handle_sync :
      (d : Bool) (obj : Object) (orgs : List Organization)
      → handle_event parse_uuid (sync_event d obj) orgs
        ≡ apply_to (synced_by d obj) (org_for_customer obj.customer orgs) orgs
  unfolding handle_event
  handle_sync true obj orgs = refl
  handle_sync false obj orgs = refl

  -- Of two updates or deletions for one customer, the later delivery alone decides: the organizations
  -- are as if the earlier had never come.
  pub last_delivery_decides :
      (d d' : Bool) (obj obj' : Object) (orgs : List Organization)
      → obj.customer ≡ obj'.customer
      → handle_event parse_uuid
          (sync_event d' obj')
          (handle_event parse_uuid (sync_event d obj) orgs)
        ≡ handle_event parse_uuid (sync_event d' obj') orgs
  last_delivery_decides d d' obj obj' orgs same =
      let after = apply_to (synced_by d obj) (org_for_customer obj.customer orgs) orgs in
      let g = synced_by d' obj' in
      let over =
        apply_to-over (org_for_customer obj.customer) (customer_test obj.customer)
          (customer_find obj.customer) (synced_by d obj) g (λ o. (synced_by_keeps d obj o).0)
          (λ o. (synced_by_keeps d' obj' o).0) (λ o h. rw ((synced_by_keeps d obj o).1) h)
          (synced_by-over d d' obj obj') orgs in
      rw (handle_sync d obj orgs, handle_sync d' obj' orgs, handle_sync d' obj' after)
        (subst
          (λ c.
            apply_to g (org_for_customer c after) after ≡ apply_to g (org_for_customer c orgs) orgs)
          same over)
