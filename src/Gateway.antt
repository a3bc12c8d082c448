-- ===== src/Gateway.antt =====
-- internal/gateway and internal/session: the entry of the clients, the limits on what they send, and
-- the cache of who owns a zone.
pub mod Limits
pub mod Cache
pub mod Pool
pub mod Handler
pub mod Store
mod Tests
