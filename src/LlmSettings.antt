-- ===== src/LlmSettings.antt =====
-- The provider settings of an organization: apps/api/src/domains/llm_settings/.
pub mod Service
pub mod Resolver
pub mod Validity
pub mod Cache
mod Tests
