-- ===== src/Camera/Reopen.antt =====
-- services/input-cv/input_cv/recovery/backoff.py: the waits between attempts to open the device, in
-- milliseconds. The health tracker that the loop shares with the service is passed along.
pub mod Backoff
use adaptive_advertisement.Common.{ℕ, ◌+◌, ◌*◌, ◌^◌, min, Bool}
use adaptive_advertisement.Camera.Tracker.{HealthTracker, increment_reopen}

unfoldable pub next_backoff : (attempt initial_ms max_ms : ℕ) → ℕ
next_backoff attempt initial_ms max_ms = min (initial_ms * 2 ^ attempt) max_ms

pub record ReopenLoop : Type 0 where
  pub initial_ms : ℕ
  pub max_ms : ℕ
  pub enabled : Bool
  pub attempt : ℕ

-- The loop and the tracker afterwards, and the sleep.
unfoldable pub wait_and_record : ReopenLoop → HealthTracker → ReopenLoop × HealthTracker × ℕ
unfolding next_backoff increment_reopen
wait_and_record l h = (
  record l { attempt = l.attempt + 1 },
  increment_reopen h,
  next_backoff l.attempt l.initial_ms l.max_ms,
)

unfoldable pub reset : ReopenLoop → ReopenLoop
reset l = record l { attempt = 0 }
