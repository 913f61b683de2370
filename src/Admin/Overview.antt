-- ===== src/Admin/Overview.antt =====
-- The figures of the overview, against a count of the rows themselves.
use saas_genai_starter.Common.{
  ℕ, ◌+◌, ◌≡◌, refl, ◌∙◌, Bool, List, [], ◌∷◌, map, ◌==◌, if◌then◌else◌, keep_if, length, arith,
}
use saas_genai_starter.Core.Order.{order_by}
use saas_genai_starter.Tenants.Models.{Organization}
use saas_genai_starter.Usage.Session.{LlmUsage}
use saas_genai_starter.Admin.{
  AdminOrganizationOut, Platform, itself, add_to, sums_by, sum_at, overview_of, organizations_of,
}

-- The sum of a figure over the rows.
abbrev pub total : {A : Type 0} → (A → ℕ) → List A → ℕ
total amount [] = 0
total amount (x ∷ xs) = amount x + total amount xs

sum_at-add_to :
    (k j n : ℕ) (rows : List (ℕ × ℕ))
    → sum_at k (add_to j n rows) ≡ (if j == k then n + sum_at k rows else sum_at k rows)
unfolding sum_at add_to
sum_at-add_to k j n [] = ground arith
sum_at-add_to k j n ((i, m) ∷ rows) = ground (arith, sum_at-add_to k j n rows)

-- `GROUP BY` and a look-up give the sum over the rows of the key.
sum_at-sums_by :
    {A : Type 0} (key amount : A → ℕ) (k : ℕ) (xs : List A)
    → sum_at k (sums_by key amount xs) ≡ total amount (keep_if (λ x. key x == k) xs)
unfolding sums_by
sum_at-sums_by key amount k [] = unfold sum_at in refl
sum_at-sums_by key amount k (x ∷ xs) =
    sum_at-add_to k (key x) (amount x) (sums_by key amount xs)
    ∙ ground (arith, sum_at-sums_by key amount k xs)

total-length : {A : Type 0} (xs : List A) → total (λ x. 1) xs ≡ length xs
total-length [] = refl
total-length (x ∷ xs) = omega (arith, total-length xs)

module _ (in_window : LlmUsage → Bool) where
  -- One organization's figures, counted and added up row by row.
  abbrev pub counted : Platform → Organization → AdminOrganizationOut
  counted p org = record {
    id = org.id;
    name = org.name;
    created_at = org.created_at;
    members = length (keep_if (λ m. m.organization_id == org.id) p.tables.memberships);
    documents = length (keep_if (λ d. d == org.id) p.documents);
    conversations = length (keep_if (λ c. c == org.id) p.conversations);
    cost_30d_usd =
        total (λ u. u.cost_usd) (keep_if (λ u. u.tenant_id == org.id) (keep_if in_window p.usage));
    rate_limit_rpm_override = org.rate_limit_rpm_override;
    rate_limit_tpd_override = org.rate_limit_tpd_override;
  }

  counted_lem : (p : Platform) (org : Organization) → overview_of in_window p org ≡ counted p org
  unfolding overview_of
  counted_lem p org =
      rw
        (
          sum_at-sums_by (λ m. m.organization_id) (λ m. 1) org.id p.tables.memberships
              ∙ total-length _,
          sum_at-sums_by itself (λ d. 1) org.id p.documents ∙ total-length _,
          sum_at-sums_by itself (λ d. 1) org.id p.conversations ∙ total-length _,
          sum_at-sums_by (λ u. u.tenant_id) (λ u. u.cost_usd) org.id (keep_if in_window p.usage),
        )
        refl

  map-counted :
      (p : Platform) (orgs : List Organization)
      → map (overview_of in_window p) orgs ≡ map (counted p) orgs
  map-counted p [] = refl
  map-counted p (o ∷ orgs) = rw (counted_lem p o, map-counted p orgs) refl

  -- The overview's grouped queries give every organization, in the order of creation, the number of its
  -- own memberships, documents and conversations, 0 where it has none, and the cost of its own calls in
  -- the window.
  pub organizations_of-counted :
      (p : Platform)
      → organizations_of in_window p
        ≡ map (counted p) (order_by (λ o. o.created_at) p.tables.organizations)
  unfolding organizations_of
  organizations_of-counted p = map-counted p (order_by (λ o. o.created_at) p.tables.organizations)
