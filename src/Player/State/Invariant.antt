-- ===== src/Player/State/Invariant.antt =====
-- What holds of the player's state machine between two commands, and which edges it takes.
use adaptive_advertisement.Common.{
  ℕ, String, ◌≡◌, ◌≢◌, Bool, true, false, Option, some, arith, is_some,
}
use adaptive_advertisement.Player.State.{
  PlayerState, fallback, active, frozen, safe_mode, play_manifest, TransitionResult, StateMachine,
  new, Readings, on_activate_creative, on_freeze, on_safe_mode, on_clear_safe_mode,
  on_connection_lost,
}

-- The inputs of the machine, each with its clock readings.
pub data Event : Type 0 where
  activate_creative : String → ℕ → ℕ → Readings → Event
  freeze : Option String → Event
  engage_safe_mode : Option String → ℕ → Event
  clear_safe_mode : Event
  connection_lost : ℕ → Event

unfoldable pub step : StateMachine → Event → StateMachine × TransitionResult
step sm (activate_creative m dwell cooldown t) = on_activate_creative sm m dwell cooldown t
step sm (freeze why) = on_freeze sm why
step sm (engage_safe_mode why now) = on_safe_mode sm why now
step sm clear_safe_mode = on_clear_safe_mode sm
step sm (connection_lost now) = on_connection_lost sm now

-- A state that shows a creative.
abbrev pub has_creative : PlayerState → Bool
has_creative active = true
has_creative frozen = true
has_creative _ = false

pub record Inv (sm : StateMachine) : Type 0 where
  pub manifest_known : is_some sm.active_manifest_id ≡ has_creative sm.state
  pub activation_known : is_some sm.activated_at ≡ has_creative sm.state
  pub freeze_explained : is_some sm.freeze_reason ≡ true → sm.state ≡ frozen
  pub safe_mode_explained : is_some sm.safe_mode_reason ≡ true → sm.state ≡ safe_mode

pub new-Inv : Inv new
new-Inv = ground arith

-- The invariant holds after every event, whatever it was.
pub step-Inv : (sm : StateMachine) (e : Event) → Inv sm → Inv (step sm e).0
unfolding step on_activate_creative on_freeze on_safe_mode on_clear_safe_mode on_connection_lost
step-Inv sm (activate_creative m d c t) h = ground arith
step-Inv sm _ h = ground arith

-- The result of a step reports the state that the machine is in after it.
pub step-new_state : (sm : StateMachine) (e : Event) → (step sm e).1.new_state ≡ (step sm e).0.state
unfolding step on_activate_creative on_freeze on_safe_mode on_clear_safe_mode on_connection_lost
step-new_state sm (activate_creative m d c t) = ground arith
step-new_state sm _ = ground arith

-- A step that is not accepted leaves the whole machine as it was.
pub step_refused_unchanged :
    (sm : StateMachine) (e : Event) → (step sm e).1.accepted ≡ false → (step sm e).0 ≡ sm
unfolding step on_activate_creative on_freeze on_safe_mode on_clear_safe_mode on_connection_lost
step_refused_unchanged sm (activate_creative m d c t) h = ground arith
step_refused_unchanged sm _ h = ground arith

infix 40 ◌⟶◌
pub data ◌⟶◌ : PlayerState → PlayerState → Type 0 where
  stay : {s : PlayerState} → s ⟶ s
  activate : {s : PlayerState} → s ≢ safe_mode → s ⟶ active
  hold_creative : active ⟶ frozen
  engage : {s : PlayerState} → s ⟶ safe_mode
  clear : safe_mode ⟶ fallback
  lose : {s : PlayerState} → s ≢ safe_mode → s ⟶ fallback

-- Every step follows an edge of the diagram.
pub step-⟶ : (sm : StateMachine) (e : Event) → sm.state ⟶ (step sm e).0.state
unfolding step on_activate_creative on_freeze on_safe_mode on_clear_safe_mode on_connection_lost
step-⟶ sm (activate_creative m d c t) = grind (arith, stay, activate)
step-⟶ sm (freeze why) = grind (arith, stay, hold_creative)
step-⟶ sm (engage_safe_mode why now) = engage
step-⟶ sm clear_safe_mode = grind (arith, stay, clear)
step-⟶ sm (connection_lost now) = grind (arith, stay, lose)

-- Only an accepted activation plays a manifest, and it is the one that was asked for.
pub activation-play :
    (sm : StateMachine) (m : String) (d c : ℕ) (t : Readings)
    → (on_activate_creative sm m d c t).1.action ≡ play_manifest
    → ((on_activate_creative sm m d c t).1.manifest_id ≡ some m)
      × ((on_activate_creative sm m d c t).0.active_manifest_id ≡ some m)
unfolding on_activate_creative
activation-play sm m d c t h = ground arith

pub freeze-ne-play :
    (sm : StateMachine) (why : Option String) → (on_freeze sm why).1.action ≢ play_manifest
unfolding on_freeze
freeze-ne-play sm why h = ground arith

pub safe_mode-ne-play :
    (sm : StateMachine) (why : Option String) (now : ℕ)
    → (on_safe_mode sm why now).1.action ≢ play_manifest
unfolding on_safe_mode
safe_mode-ne-play sm why now h = ground arith

pub clear-ne-play : (sm : StateMachine) → (on_clear_safe_mode sm).1.action ≢ play_manifest
unfolding on_clear_safe_mode
clear-ne-play sm h = ground arith
