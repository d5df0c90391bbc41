-- ===== src/Camera/Tracker.antt =====
-- services/input-cv/input_cv/health/tracker.py: the state of the device and the pipeline. Each
-- method holds the lock for its whole body, so it is one function. Times are a parameter.
use adaptive_advertisement.Common.{ℕ, ◌+◌, Bool, true, false, Option, none, some}

pub data PipelineState : Type 0 where
  starting running reopening failed : PipelineState

pub record HealthTracker : Type 0 where
  pub device_present : Bool
  pub last_frame_ts : Option ℕ
  pub last_pipeline_start_ts : Option ℕ
  pub reopen_count : ℕ
  pub pipeline_state : PipelineState

abbrev pub new : HealthTracker
new = record {
  device_present = false;
  last_frame_ts = none;
  last_pipeline_start_ts = none;
  reopen_count = 0;
  pipeline_state = starting;
}

unfoldable pub mark_device_present : HealthTracker → HealthTracker
mark_device_present h = record h { device_present = true }

unfoldable pub mark_device_absent : HealthTracker → HealthTracker
mark_device_absent h = record h { device_present = false }

unfoldable pub mark_pipeline_running : (now : ℕ) → HealthTracker → HealthTracker
mark_pipeline_running now h = record h {
  pipeline_state = running;
  last_pipeline_start_ts = some now;
}

unfoldable pub mark_reopening : HealthTracker → HealthTracker
mark_reopening h = record h { pipeline_state = reopening }

unfoldable pub mark_failed : HealthTracker → HealthTracker
mark_failed h = record h { pipeline_state = failed }

unfoldable pub record_frame : (now : ℕ) → HealthTracker → HealthTracker
record_frame now h = record h { last_frame_ts = some now }

unfoldable pub increment_reopen : HealthTracker → HealthTracker
increment_reopen h = record h { reopen_count = h.reopen_count + 1; pipeline_state = reopening }
