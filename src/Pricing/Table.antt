-- ===== src/Pricing/Table.antt =====
-- The price table of apps/api/src/llm/pricing.py. A price is in thousandths of a USD per million
-- tokens, which is exact for every entry.
use saas_genai_starter.Common.{ℕ, List, [], ◌∷◌, String}

pub record ModelPricing : Type 0 where
  pub input_per_mtok : ℕ
  pub output_per_mtok : ℕ
  pub cache_read_per_mtok : ℕ
  pub cache_write_per_mtok : ℕ

abbrev pub price : ℕ → ℕ → ℕ → ℕ → ModelPricing
price input output cache_read cache_write = record {
  input_per_mtok = input;
  output_per_mtok = output;
  cache_read_per_mtok = cache_read;
  cache_write_per_mtok = cache_write;
}

unfoldable pub pricing : List (String × ModelPricing)
pricing =
    ("claude-sonnet-4-6", price 3000 15000 300 3750)
    ∷ ("claude-haiku-4-5", price 1000 5000 100 1250)
    ∷ ("claude-opus-4-8", price 5000 25000 500 6250)
    ∷ ("voyage-3.5", price 60 0 0 0)
    ∷ ("gpt-5.1", price 1250 10000 125 0)
    ∷ ("gpt-5.1-mini", price 250 2000 25 0)
    ∷ ("text-embedding-3-small", price 20 0 0 0)
    ∷ ("gemini-3-pro-preview", price 2000 12000 200 0)
    ∷ ("gemini-2.5-pro", price 1250 10000 125 0)
    ∷ ("gemini-2.5-flash", price 300 2500 30 0)
    ∷ ("gemini-embedding-001", price 150 0 0 0)
    ∷ ("mistral-large-latest", price 2000 6000 0 0)
    ∷ ("mistral-medium-latest", price 400 2000 0 0)
    ∷ ("mistral-small-latest", price 100 300 0 0)
    ∷ ("mistral-embed", price 100 0 0 0)
    ∷ ("grok-4", price 3000 15000 750 0)
    ∷ ("grok-4-fast", price 200 500 50 0)
    ∷ ("deepseek-chat", price 280 420 28 0)
    ∷ ("deepseek-reasoner", price 280 420 28 0)
    ∷ ("llama-3.3-70b-versatile", price 590 790 0 0)
    ∷ ("llama-3.1-8b-instant", price 50 80 0 0)
    ∷ ("embed-v4.0", price 120 0 0 0)
    ∷ []
