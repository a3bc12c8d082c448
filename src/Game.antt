-- ===== src/Game.antt =====
-- internal/game: the simulation of the zones that one server owns.
pub mod Aoi
pub mod Zone
pub mod State
pub mod Zones
pub mod Entities
pub mod Sessions
pub mod Ghosts
pub mod Npc
pub mod Events
pub mod Isolation
mod Tests
