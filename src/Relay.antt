-- ===== src/Relay.antt =====
-- apps/game-server/main.go: the clients of a game server.
pub mod Clients
mod Tests
