-- ===== src/Resilience/Retries/Loop.antt =====
-- What every round keeps, the whole loop keeps.
use saas_genai_starter.Common.{ℕ, zero, suc, Option, some}
use saas_genai_starter.Llm.Errors.{LlmError}
use saas_genai_starter.Resilience.Policy.{RetryPolicy}
use saas_genai_starter.Resilience.Retries.{
  Outcome, Reply, World, Round, finish, again, resume, round, retry_loop,
}

module _ {ℓ} {A : Type ℓ} (fn : ℕ → Reply A) (uniform : ℕ → ℕ → ℕ → ℕ) (policy : RetryPolicy) where
  abbrev pub world_of : Round A → World
  world_of (finish r w) = w
  world_of (again e w) = w

  resume_inv {κ} :
      (I : World → Type κ) (next : LlmError → World → Outcome A × World) (r : Round A)
      → I (world_of r)
      → ((e : LlmError) (w : World) → I w → I (next e w).1)
      → I (resume fn uniform policy next r).1
  unfolding resume
  resume_inv I next (finish r w) h step = h
  resume_inv I next (again e w) h step = step e w h

  pub retry_loop_inv {κ} :
      (I : World → Type κ)
      → ((n : ℕ) (w : World) → I w → I (world_of (round fn uniform policy n w)))
      → (left n : ℕ) (last : Option LlmError) (w : World) → I w
      → I (retry_loop fn uniform policy left n last w).1
  unfolding retry_loop
  retry_loop_inv I step zero n last w h = h
  retry_loop_inv I step (suc left) n last w h =
      resume_inv I (λ e w'. retry_loop fn uniform policy left (suc n) (some e) w')
        (round fn uniform policy n w) (step n w h)
        (λ e w' k. retry_loop_inv I step left (suc n) (some e) w' k)
