-- ===== src/Room.antt =====
-- internal/room and apps/room-service: the coordinator that knows the servers and who owns a zone.
pub mod Node
pub mod Registry
pub mod Ownership
pub mod Migration
pub mod Sweeper
pub mod Fanout
pub mod Database
pub mod Production
pub mod Service
pub mod Runtimes
mod Tests
