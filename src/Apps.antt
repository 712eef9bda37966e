-- ===== src/Apps.antt =====
-- The programs (apps/): the listener of the simple server, the simple game, and the session of a
-- game.
pub mod Connections
pub mod Ports
pub mod SimpleGame
pub mod Listeners
pub mod GameSession
pub mod PlayerController
pub mod Program
