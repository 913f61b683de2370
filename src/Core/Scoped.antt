-- ===== src/Core/Scoped.antt =====
-- `TenantScopedRepository`: apps/api/src/core/repository.py. A table is the list of its rows.
use saas_genai_starter.Common.{
  ℕ, ◌≡◌, Option, none, some, List, [], ◌∷◌, ◌++◌, not, or_else, ◌==◌, if◌then◌else◌, keep_if,
  first,
}

-- What `TenantOwnedMixin` and a primary key give a model. `stamp` assigns `tenant_id`.
pub record TenantOwned (A : Type 0) : Type 0 where
  pub tenant_id : A → ℕ
  pub stamp : ℕ → A → A
  pub id : A → ℕ

-- An assignment of a field, as far as the repository relies on it.
pub record Stamps {A : Type 0} (model : TenantOwned A) : Type 0 where
  pub tenant_id-stamp : (t : ℕ) (x : A) → model.tenant_id (model.stamp t x) ≡ t
  pub id-stamp : (t : ℕ) (x : A) → model.id (model.stamp t x) ≡ model.id x

module _ {A : Type 0} (model : TenantOwned A) (tenant : ℕ) where
  -- `_query()`
  abbrev pub query : List A → List A
  query = keep_if (λ x. model.tenant_id x == tenant)

  unfoldable pub find : ℕ → List A → Option A
  find entity_id rows = first (keep_if (λ x. model.id x == entity_id) (query rows))

  unfoldable pub list_all : List A → List A
  list_all rows = query rows

  unfoldable pub add : A → List A → List A
  add instance rows = rows ++ model.stamp tenant instance ∷ []

  -- The row goes by its primary key; `none` is the ValueError.
  unfoldable pub delete : A → List A → Option (List A)
  delete instance rows =
      if not (model.tenant_id instance == tenant)
      then none
      else some (keep_if (λ x. not (model.id x == model.id instance)) rows)

-- What a service does to a table of its tenant: a new row, or `get` and then `delete`.
pub data Request (A : Type 0) : Type 0 where
  create : A → Request A
  remove : ℕ → Request A

module _ {A : Type 0} (model : TenantOwned A) where
  unfoldable pub remove_found : ℕ → List A → Option A → List A
  unfolding delete
  remove_found tenant rows none = rows
  remove_found tenant rows (some x) = or_else (delete model tenant x rows) rows

  unfoldable pub serve : ℕ → Request A → List A → List A
  unfolding find remove_found add
  serve tenant (create x) rows = add model tenant x rows
  serve tenant (remove n) rows = remove_found tenant rows (find model tenant n rows)

  -- requests of any tenants, in their order
  unfoldable pub serve_all : List (ℕ × Request A) → List A → List A
  unfolding serve
  serve_all [] rows = rows
  serve_all ((tenant, q) ∷ qs) rows = serve_all qs (serve tenant q rows)
