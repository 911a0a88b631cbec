-- ===== src/Scripts.antt =====
-- scripts: the commands.
pub mod Ingest
pub mod TestDatabase
