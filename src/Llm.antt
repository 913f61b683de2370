-- ===== src/Llm.antt =====
-- The shared vocabulary of the provider layer: apps/api/src/llm/errors.py and llm/types.py.
pub mod Errors
pub mod Types
pub mod OpenAi
pub mod Anthropic
pub mod Embedders
