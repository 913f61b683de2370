-- ===== src/Resilience/Policy.antt =====
-- `RetryPolicy`: how long to wait before the next attempt. Durations are in milliseconds.
pub mod Delays
use saas_genai_starter.Common.{ℕ, ◌*◌, ◌^◌, ◌/◌, ◌≤◌, min, Option, none, some}

pub record RetryPolicy : Type 0 where
  pub max_attempts : ℕ
  pub base_delay : ℕ
  pub max_delay : ℕ

-- the dataclass defaults
abbrev pub default_policy : RetryPolicy
default_policy = record { max_attempts = 4; base_delay = 500; max_delay = 8000 }

-- the default of `ResilientEmbeddingProvider`
abbrev pub embedding_policy : RetryPolicy
embedding_policy = record { max_attempts = 5; base_delay = 4000; max_delay = 30000 }

pub exponential : RetryPolicy → ℕ → ℕ
exponential p attempt = min (p.base_delay * 2 ^ attempt) p.max_delay

-- `uniform lo hi` is the draw of `random.uniform`.
unfoldable pub delay_for : RetryPolicy → (ℕ → ℕ → ℕ) → ℕ → Option ℕ → ℕ
unfolding exponential
delay_for p uniform attempt (some t) = min t 60000
delay_for p uniform attempt none = uniform (exponential p attempt / 2) (exponential p attempt)
