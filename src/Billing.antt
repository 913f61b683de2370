-- ===== src/Billing.antt =====
-- The billing state of an organization: apps/api/src/domains/billing/service.py.
pub mod Events
pub mod Sync
pub mod Replay
pub mod Converge
pub mod Checkout
pub mod Webhook
pub mod Customers
pub mod Once
pub mod Upgrade
pub mod Orphans
mod Tests
