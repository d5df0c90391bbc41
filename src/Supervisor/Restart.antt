-- ===== src/Supervisor/Restart.antt =====
-- services/supervisor/supervisor/restart_manager.py: the restart ladder. What becomes of the
-- `docker restart` process is a parameter.
pub mod Cases
use adaptive_advertisement.Common.{
  ℕ, ◌+◌, Bool, true, false, ◌||◌, List, [], ◌∷◌, length, leb, ltb, ◌==◌, if◌then◌else◌,
}
use adaptive_advertisement.Supervisor.Service.{ServiceState, record_restart, prune_timestamps}

pub data RestartDecision : Type 0 where
  restarted boot_loop escalated skipped docker_failed : RestartDecision

pub record RestartManager : Type 0 where
  pub restart_threshold : ℕ
  pub fast_fail_window : ℕ
  pub boot_loop_threshold : ℕ
  pub failure_threshold : ℕ
  pub docker_enabled : Bool

-- What the subprocess does.
pub data Docker : Type 0 where
  exited : (returncode : ℕ) → Docker
  timed_out os_error : Docker

docker_result : Docker → Bool
docker_result (exited n) = n == 0
docker_result timed_out = false
docker_result os_error = false

unfoldable pub docker_restart : RestartManager → Docker → Bool
unfolding docker_result
docker_restart m d = if m.docker_enabled then docker_result d else true

attempt : Bool → (now : ℕ) → ServiceState → ServiceState × RestartDecision
attempt success now s = if success then (record_restart now s, restarted) else (s, docker_failed)

climb : RestartManager → Docker → (now : ℕ) → ServiceState → ServiceState × RestartDecision
unfolding attempt
climb m d now s =
    if leb m.boot_loop_threshold (length s.restart_timestamps)
    then (record s { in_boot_loop = true }, boot_loop)
    else if leb m.restart_threshold s.restart_count
    then (record s { escalated = true }, escalated)
    else attempt (docker_restart m d) now s

unfoldable pub evaluate :
    RestartManager → Docker → (now : ℕ) → ServiceState → ServiceState × RestartDecision
unfolding climb
evaluate m d now s =
    if ltb s.consecutive_failures m.failure_threshold
    then (s, skipped)
    else if s.in_boot_loop || s.escalated
    then (s, skipped)
    else climb m d now (prune_timestamps m.fast_fail_window now s)
