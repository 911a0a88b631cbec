-- ===== src/Ingestion.antt =====
-- app/ingestion and scripts/ingest.py: the offline publication of a snapshot.
pub mod Schemas
pub mod Loader
pub mod Repository
pub mod Service
pub mod Samples
mod Tests
