-- ===== src/Pricing/Cost.antt =====
-- Costs are rounded to the nearest millionth of a USD, and more tokens never cost less.
use saas_genai_starter.Common.{ℕ, ◌+◌, ◌*◌, ◌≤◌, ◌≡◌, Option, none, some, String, arith, get}
use saas_genai_starter.Llm.Types.{Usage}
use saas_genai_starter.Pricing.Table.{ModelPricing, pricing}
use saas_genai_starter.Pricing.{raw_cost, quantize, priced, cost_for}

quantize_nearest : (n : ℕ) → (quantize n * 1000 ≤ n + 500) × (n ≤ quantize n * 1000 + 500)
unfolding quantize
quantize_nearest n = ground arith

quantize_mono : (m n : ℕ) → m ≤ n → quantize m ≤ quantize n
unfolding quantize
quantize_mono m n h = ground arith

-- The cost of a priced model is within half a millionth of a USD of the exact sum of tokens times
-- prices.
pub cost_for_nearest :
    (model : String) (u : Usage) (p : ModelPricing)
    → get model pricing ≡ some p
    → let exact =
        u.input_tokens * p.input_per_mtok
        + u.output_tokens * p.output_per_mtok
        + u.cache_read_tokens * p.cache_read_per_mtok
        + u.cache_write_tokens * p.cache_write_per_mtok in
      (cost_for model u * 1000 ≤ exact + 500) × (exact ≤ cost_for model u * 1000 + 500)
unfolding cost_for priced raw_cost
cost_for_nearest model u p e = rw e (quantize_nearest (raw_cost p u))

-- One usage has at most the tokens of another, of each kind.
pub record AtMost (u v : Usage) : Type 0 where
  pub input : u.input_tokens ≤ v.input_tokens
  pub output : u.output_tokens ≤ v.output_tokens
  pub cache_read : u.cache_read_tokens ≤ v.cache_read_tokens
  pub cache_write : u.cache_write_tokens ≤ v.cache_write_tokens

mul_mono : (a b p : ℕ) → a ≤ b → a * p ≤ b * p
mul_mono a b p h = grind arith

raw_cost_mono : (p : ModelPricing) (u v : Usage) → AtMost u v → raw_cost p u ≤ raw_cost p v
unfolding raw_cost
raw_cost_mono p u v h = omega (
  arith,
  mul_mono u.input_tokens v.input_tokens p.input_per_mtok h.input,
  mul_mono u.output_tokens v.output_tokens p.output_per_mtok h.output,
  mul_mono u.cache_read_tokens v.cache_read_tokens p.cache_read_per_mtok h.cache_read,
  mul_mono u.cache_write_tokens v.cache_write_tokens p.cache_write_per_mtok h.cache_write,
)

priced_mono : (o : Option ModelPricing) (u v : Usage) → AtMost u v → priced o u ≤ priced o v
unfolding priced
priced_mono none u v h = omega arith
priced_mono (some p) u v h = quantize_mono (raw_cost p u) (raw_cost p v) (raw_cost_mono p u v h)

-- For every model, known or not, a call that uses at least as many tokens of each kind costs at
-- least as much.
pub cost_for_mono :
    (model : String) (u v : Usage) → AtMost u v → cost_for model u ≤ cost_for model v
unfolding cost_for
cost_for_mono model u v h = priced_mono (get model pricing) u v h
