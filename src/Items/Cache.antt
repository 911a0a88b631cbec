-- ===== src/Items/Cache.antt =====
-- app/items/cache.py: the generational Redis cache.
pub mod Client
pub mod Generation
pub mod Redis
pub mod Hits
pub mod Keys
pub mod Contract
pub mod Stored
pub mod RoundTrip
pub mod Fake
mod Tests
