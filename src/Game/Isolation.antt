-- ===== src/Game/Isolation.antt =====
-- internal/game/simulation.go: the Space of an entity is that of its zone, through every history of
-- calls.
pub mod Core
pub mod Calls
pub mod Release
pub mod Moves
pub mod Spaces
pub mod Unzoned
