-- ===== src/Scenarios/Commands.antt =====
-- Runs of the player's command handler.
use adaptive_advertisement.Common.{ℕ, ◌≡◌, refl, arith, String, true, none, some, [], ◌∷◌, lookup}
use adaptive_advertisement.Seen.{is_seen}
use adaptive_advertisement.Manifest.{is_approved}
use adaptive_advertisement.Player.Manifests.{check_manifest, get}
use adaptive_advertisement.Player.State
use adaptive_advertisement.Player.State.{
  TransitionResult, at_once, on_activate_creative, dwell_elapsed, in_cooldown, record_cooldown,
}
use adaptive_advertisement.Player.Command.{
  Command, CommandHandler, Surroundings, activate_creative, freeze, dropped, handle_command,
  dispatch, handle_activate_creative, record_command, out_of_order,
}
use adaptive_advertisement.Player.Command.Approval.{IsApproved, played-IsApproved}
use adaptive_advertisement.Player.Command.Ordering.{
  Session, run_sessions, applied, IsIncreasingFrom, applied_increasing, taken_once,
}
use adaptive_advertisement.Scenarios.Manifests.{lobby, expiry_of}

abbrev pub at : ℕ → Surroundings
at t = record { expiry_of = expiry_of; wall_clock = 50; readings = at_once t; monotonic = t }

abbrev pub handler : CommandHandler
handler = record {
  sm = State.new;
  store = ("lobby", lobby) ∷ [];
  publisher = some [];
  last_sequence = none;
  seen_command_ids = [];
}

abbrev pub play_lobby : Command
play_lobby = record {
  command_id = "c-1";
  sequence_number = 1;
  command_type = activate_creative;
  activation =
      some (record {
        manifest_id = "lobby";
        min_dwell_ms = 100;
        cooldown_ms = none;
        rationale = none;
      });
  freeze_reason = none;
  safe_mode_reason = none;
}

abbrev freezing : (id : String) → ℕ → Command
freezing id n = record play_lobby {
  command_id = id;
  sequence_number = n;
  command_type = freeze;
  activation = none;
}

abbrev played : TransitionResult
played = record {
  accepted = true;
  new_state = State.active;
  action = State.play_manifest;
  manifest_id = some "lobby";
  reason = none;
}

played-IsApproved_example :
    (id : String) × IsApproved (at 10) handler id
    × (played.manifest_id ≡ some id)
    × ((handle_command (at 10) handler play_lobby).0.sm.active_manifest_id ≡ some id)
unfolding handle_command dispatch handle_activate_creative record_command get lookup check_manifest
    is_approved is_seen out_of_order on_activate_creative dwell_elapsed in_cooldown
played-IsApproved_example =
    played-IsApproved (at 10) handler play_lobby (handle_command (at 10) handler play_lobby).0
      played refl refl

abbrev session : Session
session =
    (at 10, play_lobby)
    ∷ (at 20, freezing "c-2" 5)
    ∷ (at 30, freezing "c-3" 4)
    ∷ (at 40, freezing "c-4" 6)
    ∷ []

applied_increasing_example : IsIncreasingFrom none (applied handler session)
applied_increasing_example = applied_increasing handler session

taken_once_example :
    handle_command
      (at 90)
      (run_sessions (handle_command (at 10) handler play_lobby).0 (session ∷ session ∷ []))
      play_lobby
    ≡ (run_sessions (handle_command (at 10) handler play_lobby).0 (session ∷ session ∷ []), dropped)
unfolding handle_command dispatch handle_activate_creative record_command get lookup check_manifest
    is_approved is_seen out_of_order
taken_once_example =
    taken_once (at 10) (at 90) handler play_lobby (session ∷ session ∷ []) (omega arith) refl
      (omega arith)
