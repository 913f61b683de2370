-- ===== src/Documents.antt =====
-- Documents: their ingestion and the search in them (apps/api/src/domains/documents).
pub mod Models
pub mod Retrieval
pub mod Ingestion
pub mod Replaced
pub mod Lifecycle
pub mod Jobs
pub mod Router
pub mod Uploads
pub mod Removal
mod Tests
