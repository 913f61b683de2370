-- ===== src/Usage.antt =====
-- Recording what every provider call costs: apps/api/src/domains/usage/service.py.
pub mod Session
pub mod Service
pub mod Rows
