-- ===== src/Player/State/Fits.antt =====
-- What a transition asks of the screen, and that it fits the machine's new state.
use adaptive_advertisement.Common.{ℕ, String, ◌≡◌, true, Option, arith}
use adaptive_advertisement.Player.State.{
  play_manifest, hold, TransitionResult, StateMachine, Readings, on_activate_creative, on_freeze,
  on_safe_mode, on_clear_safe_mode, on_connection_lost,
}
use adaptive_advertisement.Player.State.Invariant.{Inv, has_creative}

-- A transition that the screen can follow: it plays the active manifest, or holds a screen that
-- still fits.
pub record Fits (old new : StateMachine) (res : TransitionResult) : Type 0 where
  pub plays_active :
      res.action ≡ play_manifest
      → (has_creative new.state ≡ true) × (res.manifest_id ≡ new.active_manifest_id)
  pub holds_same :
      res.action ≡ hold
      → (has_creative new.state ≡ has_creative old.state)
        × (new.active_manifest_id ≡ old.active_manifest_id)

module _ (sm : StateMachine) where
  pub activate-Fits :
      (m : String) (d c : ℕ) (t : Readings)
      → Fits sm (on_activate_creative sm m d c t).0 (on_activate_creative sm m d c t).1
  unfolding on_activate_creative
  activate-Fits m d c t = ground arith

  pub freeze-Fits : (why : Option String) → Fits sm (on_freeze sm why).0 (on_freeze sm why).1
  unfolding on_freeze
  freeze-Fits why = ground arith

  pub safe_mode-Fits :
      (why : Option String) (now : ℕ)
      → Fits sm (on_safe_mode sm why now).0 (on_safe_mode sm why now).1
  unfolding on_safe_mode
  safe_mode-Fits why now = ground arith

  pub clear-Fits : Fits sm (on_clear_safe_mode sm).0 (on_clear_safe_mode sm).1
  unfolding on_clear_safe_mode
  clear-Fits = ground arith

  pub lost-Fits : (now : ℕ) → Fits sm (on_connection_lost sm now).0 (on_connection_lost sm now).1
  unfolding on_connection_lost
  lost-Fits now = ground arith

-- The machine is well formed afterwards, and the screen can follow.
pub record Follows (old new : StateMachine) (res : TransitionResult) : Type 0 where
  pub machine : Inv new
  pub fits : Fits old new res
