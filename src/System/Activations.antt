-- ===== src/System/Activations.antt =====
-- From a manifest that the policy selects to the screen of a player.
use adaptive_advertisement.Common.{ℕ, String, ◌≡◌, ◌≢◌, true, false, some}
use adaptive_advertisement.Player.State.{
  StateMachine, Readings, active, safe_mode, dwell_elapsed, in_cooldown,
}

-- The player may change to `m` now.
pub record IsFree (sm : StateMachine) (m : String) (t : Readings) : Type 0 where
  pub unlocked : sm.state ≢ safe_mode
  pub dwelt : sm.state ≡ active → dwell_elapsed sm t.dwell_read ≡ true
  pub cooled : in_cooldown sm m t.cooldown_read ≡ false

-- `m` is active for a dwell time.
pub record IsActive (sm : StateMachine) (m : String) (dwell : ℕ) : Type 0 where
  pub state : sm.state ≡ active
  pub manifest : sm.active_manifest_id ≡ some m
  pub dwell_is : sm.min_dwell_ms ≡ dwell
