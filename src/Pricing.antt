-- ===== src/Pricing.antt =====
-- The cost of a call: apps/api/src/llm/pricing.py. A cost is in millionths of a USD.
pub mod Table
pub mod Cost
mod Tests
use saas_genai_starter.Common.{
  ℕ, ◌+◌, ◌*◌, ◌/◌, ◌%◌, Option, none, some, String, ltb, if◌then◌else◌, get,
}
use saas_genai_starter.Llm.Types.{Usage}
use saas_genai_starter.Pricing.Table.{ModelPricing, pricing}

-- the sum of the products, in thousandths of a millionth of a USD
pub raw_cost : ModelPricing → Usage → ℕ
raw_cost p u =
    u.input_tokens * p.input_per_mtok
    + u.output_tokens * p.output_per_mtok
    + u.cache_read_tokens * p.cache_read_per_mtok
    + u.cache_write_tokens * p.cache_write_per_mtok

-- `quantize`: to the nearest whole number of thousands, a tie to the even one
pub quantize : ℕ → ℕ
quantize n =
    let q = n / 1000 in
    let r = n % 1000 in if ltb r 500 then q else if ltb 500 r then q + 1 else q + q % 2

priced : Option ModelPricing → Usage → ℕ
priced none u = 0
priced (some p) u = quantize (raw_cost p u)

unfoldable pub cost_for : String → Usage → ℕ
unfolding priced
cost_for model u = priced (get model pricing) u
