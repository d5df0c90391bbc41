-- ===== src/Player.antt =====
-- services/player: the state machine, the commands that drive it and what the screen shows.
pub mod State
pub mod Manifests
pub mod Command
pub mod Fallback
pub mod Node
