-- ===== src/System.antt =====
-- The services together: decision_loop.py and player_gateway.py of the decision optimizer with
-- command_handler.py and state.py of the player, and the dashboard's rules and safe mode with the
-- decision optimizer and the supervisor.
pub mod Freezes
pub mod Activations
pub mod Targeting
pub mod SafeModes
pub mod Fallbacks
