-- ===== src/Storage.antt =====
-- The documents' blobs on the local disk: apps/api/src/core/storage.py.
pub mod Paths
pub mod Disk
pub mod Confined
pub mod Tenancy
mod Tests
