-- ===== src/Auth.antt =====
-- Who a request is from: apps/api/src/core/auth.py.
pub mod Jwks
pub mod Freshness
pub mod Tokens
pub mod Sound
pub mod History
pub mod Rotation
mod Tests
