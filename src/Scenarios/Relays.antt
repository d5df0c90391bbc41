-- ===== src/Scenarios/Relays.antt =====
-- Runs of the safe-mode relay.
use adaptive_advertisement.Common.{true, none, some}
use adaptive_advertisement.Supervisor.Relay
use adaptive_advertisement.Supervisor.Relay.{SafeModeRelay, Intent, answered, unreachable}
use adaptive_advertisement.Supervisor.Relay.Convergence.{Poll}

abbrev wanted : Intent
wanted = record { is_active = some true; reason = some "operator_manual" }

abbrev lost : Poll
lost = record { dashboard = answered 200 wanted; player = none }

abbrev away : Poll
away = record { dashboard = unreachable; player = some 200 }

abbrev reached : Poll
reached = record { dashboard = answered 200 wanted; player = some 200 }
