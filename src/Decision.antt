-- ===== src/Decision.antt =====
-- services/decision-optimizer: from an audience signal to a command for the player.
pub mod Signal
pub mod Policy
pub mod Consumer
pub mod Gateway
pub mod Loop
