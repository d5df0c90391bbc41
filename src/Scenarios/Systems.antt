-- ===== src/Scenarios/Systems.antt =====
-- Runs of the decision loop with a player.
use adaptive_advertisement.Common.{refl, arith, inl, none, some}
use adaptive_advertisement.Seen.{is_seen}
use adaptive_advertisement.Decision.Gateway.{
  Delivery, freezing, build, broadcast, next_command, send_freeze,
}
use adaptive_advertisement.Decision.Loop.{DecisionLoop, freeze_reason, tick_with}
use adaptive_advertisement.Decision.Loop.Runs.{reason_of, sent_by}
use adaptive_advertisement.Player.Command.{CommandHandler, activate_creative, handle_command}
use adaptive_advertisement.System.Freezes.{IsFrozen, degraded_freezes_player}
use adaptive_advertisement.Scenarios.Machines.{playing}
use adaptive_advertisement.Scenarios.Commands.{at, handler}
use adaptive_advertisement.Scenarios.Gateways.{network}
use adaptive_advertisement.Scenarios.Loops.{deciding, reading}

abbrev showing : CommandHandler
showing = record handler { sm = playing }

abbrev freeze_for_seven : Delivery
freeze_for_seven = record {
  to = 7;
  command = build network 4 (freezing (some "decision_degraded"));
}

degraded_freezes_player_example :
    IsFrozen showing (handle_command (at 10) showing freeze_for_seven.command).0
unfolding reason_of freeze_reason sent_by tick_with send_freeze broadcast next_command is_seen
degraded_freezes_player_example =
    degraded_freezes_player deciding (reading 6 5_001) "decision_degraded" freeze_for_seven (at 10)
      showing refl (inl refl) (λ n e. ground (arith, e)) refl refl

abbrev idle : DecisionLoop
idle = record deciding { current_manifest_id = none }

abbrev lobby_for_seven : Delivery
lobby_for_seven = record {
  to = 7;
  command = record {
    command_id = "fresh";
    sequence_number = 4;
    command_type = activate_creative;
    activation = some (record {
      manifest_id = "lobby";
      min_dwell_ms = 10_000;
      cooldown_ms = some 5_000;
      rationale = some "policy rule match";
    });
    freeze_reason = none;
    safe_mode_reason = none;
  };
}
