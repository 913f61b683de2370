-- ===== src/Pricing/Tests.antt =====
-- The theorems on costs, at concrete usages.
use saas_genai_starter.Common.{arith}
use saas_genai_starter.Llm.Types.{Usage}
use saas_genai_starter.Pricing.Cost.{AtMost}

abbrev small : Usage
small = record {
  input_tokens = 1200;
  output_tokens = 350;
  cache_read_tokens = 40;
  cache_write_tokens = 0;
}

abbrev large : Usage
large = record small { output_tokens = 900 }

small-large : AtMost small large
small-large = record {
  input = omega arith;
  output = omega arith;
  cache_read = omega arith;
  cache_write = omega arith;
}
