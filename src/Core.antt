-- ===== src/Core.antt =====
-- The shared layers of the API: errors, database actions and the tenant-scoped repository
-- (apps/api/src/core).
pub mod Crypto
pub mod Errors
pub mod Action
pub mod Order
pub mod Scoped
pub mod Isolation
mod Tests
