-- ===== src/Lib.antt =====
-- The signage system of this repository, service by service: what decides what is on a screen, and
-- what keeps that decision safe. The services exchange validated JSON messages: input-cv makes
-- observations of camera frames, audience-state makes signals of observations, decision-optimizer
-- makes commands of signals, the player carries commands out and shows approved manifests, creative
-- serves those manifests, supervisor restarts containers and relays safe mode, and dashboard-api is
-- where operators approve manifests and make rules of them, ask for safe mode and see what was
-- played.
--
-- - Common, Seen, Manifest: lists, dictionaries and tests over native numbers; exceptions as values
--   (Common.Outcome); json.loads and the jsonschema validator as a parameter (Common.Codec); the
--   bounded memory of identifiers that the consumers share; the keys of a creative manifest.
-- - Player: services/player/player. Player.State is state.py (StateMachine), Player.Command is
--   command_handler.py (CommandHandler), Player.Manifests is manifest_store.py, Player.Fallback is
--   fallback.py (FallbackBundle), Player.Node is main.py (_execute_transition, on_transition, the
--   timer loops, the start) with the safe-mode endpoint of health.py.
-- - Creative: services/creative/creative/manifest_store.py.
-- - Decision: services/decision-optimizer/decision_optimizer. Decision.Policy is policy.py,
--   Decision.Consumer is signal_consumer.py, Decision.Gateway is player_gateway.py, Decision.Loop is
--   decision_loop.py, and Decision.Signal is what they read of a signal.
-- - Supervisor: services/supervisor/supervisor. Supervisor.Service is service_table.py and
--   health_probe.py, Supervisor.Restart is restart_manager.py, Supervisor.Relay is
--   safe_mode_relay.py, Supervisor.Health is the health loop of main.py, Supervisor.Storage is
--   storage_monitor.py.
-- - Audience: services/audience-state/audience_state. Audience.Window and Audience.Demographics are
--   observation_store.py, Audience.Consumer is observation_consumer.py, Audience.Publisher is
--   signal_publisher.py.
-- - Camera: services/input-cv/input_cv. Camera.Tracker is health/tracker.py, Camera.Reopen is
--   recovery/backoff.py, Camera.Run is the loop of main.py with the check of observation/builder.py.
-- - Dashboard: services/dashboard-api/dashboard_api. Dashboard.Tags and Dashboard.Rules are
--   rule_generator.py, Dashboard.Audit is events.py, Dashboard.Manifests is routers/manifests.py,
--   Dashboard.Campaigns is routers/campaigns.py, Dashboard.SafeMode and Dashboard.Status are
--   routers/system.py, Dashboard.Fallback is routers/fallback.py, Dashboard.Snapshots,
--   Dashboard.Plays and Dashboard.Uptime are the three sinks, with the uptime report,
--   Dashboard.Sinks is the loop in which the first two connect,
--   Dashboard.Analytics is routers/analytics.py, Dashboard.Assets is routers/assets.py, and
--   Dashboard.Listings is the paginated listing of each router.
-- - System: components together. The decision loop and its gateway with the player's command
--   handler, from a tick to the player's state (Activations, Freezes); the manifest workflow and the
--   rule generator with the policy engine (Targeting); the dashboard's safe mode with the
--   supervisor's relay (SafeModes); the dashboard's fallback library with the player's selection
--   (Fallbacks).
-- - Scenarios: runs at concrete inputs.
--
-- Each object is a record, and each method a function from the old object to the new one and the
-- result. A clock is an argument in milliseconds, one reading for each call of the source
-- (Audience.Window takes one for the two that `add` and the age of the newest observation take);
-- `now - then >= d` is written `then + d ≤ now`. Fractions (confidences, shares) are natural numbers
-- of a small unit, and Audience.Numbers writes out their rounding; the error of binary floating
-- point is left out. Rule priorities are natural numbers; those of generated rules are counted from
-- -1, which the safety fallback has. A table of the database is a list of rows, or a dictionary by
-- the identifier that is unique in it, and a commit succeeds unless an argument says otherwise.
-- Loops that run forever are lists of their rounds, or a relation of reachability
-- (Player.Node.NeverBlank), so no fuel is needed.
--
-- Parameters stand for what the source only calls: the validator, datetime.fromisoformat, uuid4, the
-- random draw, the renderer, the delivery of a message, docker, SHA-256, str.strip, whether a path is
-- a file, and the answers of HTTP requests.
-- Not modelled: the dashboards, the database session and the start of dashboard-api, the camera's
-- driver, the start and stop of servers, MQTT clients, logs and metrics.
pub mod Common
pub mod Seen
pub mod Manifest
pub mod Player
pub mod Creative
pub mod Decision
pub mod Supervisor
pub mod Audience
pub mod Camera
pub mod Dashboard
pub mod System
pub mod Scenarios
