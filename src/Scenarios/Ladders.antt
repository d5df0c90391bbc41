-- ===== src/Scenarios/Ladders.antt =====
-- Runs of the supervisor's restart ladder.
use adaptive_advertisement.Common.{
  ℕ, ◌≡◌, ◌≤◌, refl, arith, true, false, none, List, [], ◌∷◌, length, filter,
}
use adaptive_advertisement.Supervisor.Service.{
  ManagedService, status, timeout_error, critical, is_recent,
}
use adaptive_advertisement.Supervisor.Restart.{RestartManager, exited, timed_out, docker_restart}
use adaptive_advertisement.Supervisor.Restart.Cases.{is_terminal}
use adaptive_advertisement.Supervisor.Relay
use adaptive_advertisement.Supervisor.Relay.{SafeModeRelay}
use adaptive_advertisement.Supervisor.Health.{Check}
use adaptive_advertisement.Supervisor.Health.Ladder.{fresh, track}
use adaptive_advertisement.Supervisor.Health.Window.{restarts_bounded}
use adaptive_advertisement.Supervisor.Health.Attempts.{failing_never_escalates}

abbrev manager : RestartManager
manager = record {
  restart_threshold = 5;
  fast_fail_window = 120_000;
  boot_loop_threshold = 3;
  failure_threshold = 2;
  docker_enabled = true;
}

abbrev player : ManagedService
player = record {
  name = "player";
  healthz_url = "http://player:8080/healthz";
  container_name = "player";
  priority = critical;
}

abbrev down_at : ℕ → Check
down_at t = record { response = status 500; now = t; docker = exited 0; player = none }

abbrev stuck_at : ℕ → Check
stuck_at t = record { response = timeout_error "5 s"; now = t; docker = timed_out; player = none }

abbrev failing : List Check
failing = down_at 10_000 ∷ down_at 20_000 ∷ down_at 30_000 ∷ down_at 40_000 ∷ down_at 50_000 ∷ []

restarts_bounded_example :
    ((track manager player (fresh "player" Relay.new) failing).state.restart_count
      ≡ length (track manager player (fresh "player" Relay.new) failing).restarts)
    × (length (track manager player (fresh "player" Relay.new) failing).restarts ≤ 5)
    × (length (
          filter
            (is_recent 120_000 60_000)
            (track manager player (fresh "player" Relay.new) failing).restarts)
        ≤ 3)
restarts_bounded_example =
    restarts_bounded manager player Relay.new failing 60_000
      (omega arith, (omega arith, (omega arith, (omega arith, (omega arith, omega arith)))))

failing_never_escalates_example :
    (is_terminal
        (track manager player
          (fresh "player" Relay.new)
          (stuck_at 10 ∷ stuck_at 20 ∷ stuck_at 30 ∷ [])).state
      ≡ false)
    × ((track manager player
          (fresh "player" Relay.new)
          (stuck_at 10 ∷ stuck_at 20 ∷ stuck_at 30 ∷ [])).state.restart_count
        ≡ 0)
    × ((track manager player
          (fresh "player" Relay.new)
          (stuck_at 10 ∷ stuck_at 20 ∷ stuck_at 30 ∷ [])).requests
        ≡ [])
unfolding docker_restart
failing_never_escalates_example =
    failing_never_escalates manager player Relay.new (stuck_at 10 ∷ stuck_at 20 ∷ stuck_at 30 ∷ [])
      (omega arith) (omega arith) (refl, (refl, (refl, tt)))
