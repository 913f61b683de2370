-- ===== src/Core/Tests.antt =====
-- The theorem on tenants that share a table, at a small table.
use saas_genai_starter.Common.{ℕ, ◌≡◌, refl, List, [], ◌∷◌, ◌/◌, ◌==◌, keep_if}
use saas_genai_starter.Core.Scoped.{
  TenantOwned, Stamps, query, Request, create, remove, serve_all, find, delete,
}
use saas_genai_starter.Core.Isolation.{serve_all-alone}

-- a row: its id and its tenant
abbrev rows_model : TenantOwned (ℕ × ℕ)
rows_model = record { tenant_id = λ r. r.1; stamp = λ t r. (r.0, t); id = λ r. r.0 }

abbrev rows_stamps : Stamps rows_model
rows_stamps = record { tenant_id-stamp = λ t x. refl; id-stamp = λ t x. refl }

-- the ids from 10 on are the first tenant's
abbrev owner_of : ℕ → ℕ
owner_of n = n / 10

-- The row that the second tenant asks for with a forged tenant becomes its own, and its request to
-- remove a row of the first tenant finds nothing.
abbrev some_requests : List (ℕ × Request (ℕ × ℕ))
some_requests = (1, create (12, 1)) ∷ (2, create (20, 1)) ∷ (2, remove 11) ∷ (1, remove 12) ∷ []

served : serve_all rows_model some_requests ((11, 1) ∷ []) ≡ (11, 1) ∷ (20, 2) ∷ []
unfolding serve_all find delete
served = refl

serve_all-alone_example :
    query rows_model 1 (serve_all rows_model some_requests ((11, 1) ∷ []))
    ≡ serve_all rows_model
        (keep_if (λ q. q.0 == 1) some_requests)
        (query rows_model 1 ((11, 1) ∷ []))
serve_all-alone_example =
    serve_all-alone rows_model rows_stamps owner_of 1 some_requests ((11, 1) ∷ []) (refl, tt)
      (refl, (refl, (tt, (tt, tt))))
