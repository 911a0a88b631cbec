-- ===== src/Items.antt =====
-- app/items: the catalog's read side.
pub mod Schemas
pub mod Cache
pub mod Models
pub mod Repository
pub mod Router
pub mod Service
