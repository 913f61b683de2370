-- ===== src/Resilience.antt =====
-- Retries and the circuit breaker: apps/api/src/llm/resilience.py.
pub mod Policy
pub mod Breaker
pub mod Retries
pub mod Streams
mod Tests
