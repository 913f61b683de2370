-- ===== src/Tenants.antt =====
-- Organizations, memberships and invitations: apps/api/src/domains/tenants.
pub mod Models
pub mod Repository
pub mod Context
pub mod Service
pub mod Invitations
pub mod Rows
pub mod Owners
pub mod Requests
pub mod Authority
pub mod Spent
mod Tests
