-- ===== src/Core/Isolation.antt =====
-- Tenants do not interfere: apps/api/src/core/repository.py.
use saas_genai_starter.Common.{
  ℕ, ◌≡◌, refl, sym, ap, subst, ◌∙◌, Bool, true, false, not, Bool-cases, Option-cases, inl, inr,
  Option, none, some, List, [], ◌∷◌, ◌++◌, arith, ◌==◌, keep_if, first, append-nil, All, All-append,
}
use saas_genai_starter.Core.Scoped.{
  TenantOwned, Stamps, query, find, add, delete, Request, create, remove, remove_found, serve,
  serve_all,
}

pub keep_if-append :
    {A : Type 0} (p : A → Bool) (xs ys : List A)
    → keep_if p (xs ++ ys) ≡ keep_if p xs ++ keep_if p ys
keep_if-append p [] ys = refl
keep_if-append p (x ∷ xs) ys = ground (arith, keep_if-append p xs ys)

keep_if-keep_if :
    {A : Type 0} (p q : A → Bool) (xs : List A)
    → keep_if p (keep_if q xs) ≡ keep_if q (keep_if p xs)
keep_if-keep_if p q [] = refl
keep_if-keep_if p q (x ∷ xs) = ground (arith, keep_if-keep_if p q xs)

-- the first item that a filter keeps satisfies it, and whatever all items satisfy
first-keep_if :
    {A : Type 0} (P : A → Type 0) (p : A → Bool) (xs : List A) (x : A)
    → All P xs
    → first (keep_if p xs) ≡ some x
    → (p x ≡ true) × P x
first-keep_if P p [] x h e = absurd (ground arith)
first-keep_if P p (y ∷ xs) x (hy, hs) e = elim (Bool-cases (p y)) [
  | inl kept ↦ let same : y ≡ x = ground arith in (ap p (sym same) ∙ kept, subst P same hy)
  | inr dropped ↦ first-keep_if P p xs x hs (ground arith)
]

All-keep_if :
    {A : Type 0} (P : A → Type 0) (p : A → Bool) (xs : List A)
    → All P xs
    → All (λ x. P x × (p x ≡ true)) (keep_if p xs)
All-keep_if P p [] h = h
All-keep_if P p (x ∷ xs) (h, hs) = elim (Bool-cases (p x)) [
  | inl kept ↦ rw kept ((h, kept), All-keep_if P p xs hs)
  | inr dropped ↦ rw dropped (All-keep_if P p xs hs)
]

keep_all : {A : Type 0} (p : A → Bool) (xs : List A) → All (λ x. p x ≡ true) xs → keep_if p xs ≡ xs
keep_all p [] h = refl
keep_all p (x ∷ xs) (h, hs) = ground (arith, keep_all p xs hs)

module _ {A : Type 0} (model : TenantOwned A) (laws : Stamps model) (owner : ℕ → ℕ) where
  -- No two tenants share the id of a row: `owner` tells whose row it is.
  abbrev pub Owned : List A → Type 0
  Owned = All (λ x. owner (model.id x) ≡ model.tenant_id x)

  -- A new row comes with an id of its tenant's.
  abbrev pub Fits : ℕ × Request A → Type 0
  Fits (tenant, create x) = owner (model.id x) ≡ tenant
  Fits (tenant, remove n) = Unit

  find-Owned :
      (tenant n : ℕ) (rows : List A) (x : A)
      → Owned rows
      → find model tenant n rows ≡ some x
      → (model.tenant_id x ≡ tenant) × (owner (model.id x) ≡ tenant)
  unfolding find
  find-Owned tenant n rows x o e =
      let (_, (p, q)) =
        first-keep_if
          (λ y. (owner (model.id y) ≡ model.tenant_id y) × ((model.tenant_id y == tenant) ≡ true))
          (λ y. model.id y == n) (query model tenant rows) x
          (All-keep_if (λ y. owner (model.id y) ≡ model.tenant_id y)
            (λ y. model.tenant_id y == tenant) rows o)
          e in
      let own : model.tenant_id x ≡ tenant = ground arith in (own, p ∙ own)

  delete_own :
      (tenant : ℕ) (rows : List A) (x : A)
      → model.tenant_id x ≡ tenant
      → delete model tenant x rows ≡ some (keep_if (λ y. not (model.id y == model.id x)) rows)
  unfolding delete
  delete_own tenant rows x own = ground arith

  -- removing a row keeps what other tenants see
  foreign_kept :
      (viewer n : ℕ) (rows : List A)
      → Owned rows
      → (owner n == viewer) ≡ false
      → keep_if (λ y. not (model.id y == n)) (query model viewer rows) ≡ query model viewer rows
  foreign_kept viewer n [] o ne = refl
  foreign_kept viewer n (x ∷ rows) (h, o) ne =
      let more = foreign_kept viewer n rows o ne in
      elim (Bool-cases (model.tenant_id x == viewer)) [
        | inr foreign ↦ ground (arith, more)
        | inl own ↦ elim (Bool-cases (model.id x == n)) [
          | inl same ↦
              let e : model.id x ≡ n = ground arith in
              let v : model.tenant_id x ≡ viewer = ground arith in
              absurd (ground (arith, ap owner e, h))
          | inr differ ↦ ground (arith, more)
        ]
      ]

  keep-Owned : (p : A → Bool) (rows : List A) → Owned rows → Owned (keep_if p rows)
  keep-Owned p [] o = o
  keep-Owned p (x ∷ rows) (h, o) = elim (Bool-cases (p x)) [
    | inl kept ↦ rw kept (h, keep-Owned p rows o)
    | inr dropped ↦ rw dropped (keep-Owned p rows o)
  ]

  remove_found-Owned :
      (tenant : ℕ) (rows : List A) (found : Option A)
      → Owned rows
      → Owned (remove_found model tenant rows found)
  unfolding remove_found delete
  remove_found-Owned tenant rows none o = o
  remove_found-Owned tenant rows (some x) o = elim (Bool-cases (model.tenant_id x == tenant)) [
    | inl own ↦ rw own (keep-Owned (λ y. not (model.id y == model.id x)) rows o)
    | inr foreign ↦ rw foreign o
  ]

  serve-Owned :
      (tenant : ℕ) (q : Request A) (rows : List A)
      → Fits (tenant, q)
      → Owned rows
      → Owned (serve model tenant q rows)
  unfolding serve add
  serve-Owned tenant (create x) rows fits o =
      All-append (λ y. owner (model.id y) ≡ model.tenant_id y) rows (model.stamp tenant x ∷ []) o
        (ap owner (laws.id-stamp tenant x) ∙ fits ∙ sym (laws.tenant_id-stamp tenant x), tt)
  serve-Owned tenant (remove n) rows fits o =
      remove_found-Owned tenant rows (find model tenant n rows) o

  foreign_serve :
      (viewer tenant : ℕ) (q : Request A) (rows : List A)
      → Owned rows
      → (tenant == viewer) ≡ false
      → query model viewer (serve model tenant q rows) ≡ query model viewer rows
  unfolding serve add
  foreign_serve viewer tenant (create x) rows o ne =
      keep_if-append (λ y. model.tenant_id y == viewer) rows (model.stamp tenant x ∷ [])
      ∙ ap (λ zs. query model viewer rows ++ zs) (rw (laws.tenant_id-stamp tenant x, ne) refl)
      ∙ append-nil (query model viewer rows)
  foreign_serve viewer tenant (remove n) rows o ne =
      elim (Option-cases (find model tenant n rows)) [
        | inl missing ↦ unfold remove_found in rw missing refl
        | inr (x, e) ↦
            let (own, whose) = find-Owned tenant n rows x o e in
            unfold remove_found in
            rw (e, delete_own tenant rows x own)
              (keep_if-keep_if (λ y. model.tenant_id y == viewer)
                  (λ y. not (model.id y == model.id x)) rows
                ∙ foreign_kept viewer (model.id x) rows o (ap (λ t. t == viewer) whose ∙ ne))
      ]

  same_tenant : (t : ℕ) → (t == t) ≡ true
  same_tenant t = ground arith

  query-query : (t : ℕ) (rows : List A) → query model t (query model t rows) ≡ query model t rows
  query-query t [] = refl
  query-query t (x ∷ rows) = ground (arith, query-query t rows)

  own_serve :
      (t : ℕ) (q : Request A) (rows : List A)
      → Owned rows
      → query model t (serve model t q rows) ≡ serve model t q (query model t rows)
  unfolding serve add find
  own_serve t (create x) rows o =
      keep_if-append (λ y. model.tenant_id y == t) rows (model.stamp t x ∷ [])
      ∙ ap (λ zs. query model t rows ++ zs) (rw (laws.tenant_id-stamp t x, same_tenant t) refl)
  own_serve t (remove n) rows o = elim (Option-cases (find model t n rows)) [
    | inl missing ↦ unfold remove_found find in rw (query-query t rows, missing) refl
    | inr (x, e) ↦
        let own = (find-Owned t n rows x o e).0 in
        unfold remove_found find in
        rw (query-query t rows, e, delete_own t rows x own, delete_own t (query model t rows) x own)
          (keep_if-keep_if (λ y. model.tenant_id y == t) (λ y. not (model.id y == model.id x)) rows)
  ]

  -- Whatever requests all tenants make, in whatever order: what a tenant then sees of the table is what
  -- its own requests alone would have made of what it saw before, if no two tenants share the id of a row.
  pub serve_all-alone :
      (t : ℕ) (qs : List (ℕ × Request A)) (rows : List A)
      → Owned rows
      → All Fits qs
      → query model t (serve_all model qs rows)
        ≡ serve_all model (keep_if (λ q. q.0 == t) qs) (query model t rows)
  unfolding serve_all
  serve_all-alone t [] rows o fits = refl
  serve_all-alone t ((tenant, q) ∷ qs) rows o (f, fits) =
      let more =
        serve_all-alone t qs (serve model tenant q rows) (serve-Owned tenant q rows f o) fits in
      elim (Bool-cases (tenant == t)) [
        | inl own ↦
            let same : tenant ≡ t = ground arith in
            rw own (
              more
              ∙ ap (serve_all model (keep_if (λ p. p.0 == t) qs)) (
                  subst
                    (λ u.
                      query model t (serve model u q rows) ≡ serve model u q (query model t rows))
                    (sym same) (own_serve t q rows o)))
        | inr foreign ↦ rw foreign (
            more
            ∙ ap (serve_all model (keep_if (λ p. p.0 == t) qs))
                (foreign_serve t tenant q rows o foreign))
      ]
