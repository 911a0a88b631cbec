-- ===== src/Core.antt =====
-- app/core: what the features share.
pub mod Clients
pub mod Config
pub mod Exceptions
pub mod Log
pub mod Logging
pub mod Platform
