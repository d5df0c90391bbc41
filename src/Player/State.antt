-- ===== src/Player/State.antt =====
-- services/player/player/state.py: the state machine of the player.
-- Clock readings (`time.monotonic()`) are milliseconds; a method takes one reading for each call
-- that it makes. `elapsed >= d` is written `entered + d ≤ now`, which is exact on ℕ.
pub mod Invariant
pub mod Traces
pub mod Fits
use adaptive_advertisement.Common.{
  ℕ, ◌+◌, ◌≤◌, String, ◌≡◌, Bool, true, false, not, ◌&&◌, Option, none, some, [], leb, ltb,
  if◌then◌else◌, is_some, Dict, lookup, insert,
}

pub data PlayerState : Type 0 where
  fallback active frozen safe_mode : PlayerState

pub data Action : Type 0 where
  play_manifest show_fallback hold : Action

pub record TransitionResult : Type 0 where
  pub accepted : Bool
  pub new_state : PlayerState
  pub action : Action
  pub manifest_id : Option String
  pub reason : Option String

pub record StateMachine : Type 0 where
  pub state : PlayerState
  pub active_manifest_id : Option String
  pub activated_at : Option ℕ
  pub min_dwell_ms : ℕ
  pub freeze_reason : Option String
  pub safe_mode_reason : Option String
  -- manifest_id to (deactivated_at, cooldown_ms)
  pub cooldowns : Dict (ℕ × ℕ)
  pub cooldown_ms_for_active : ℕ

abbrev pub new : StateMachine
new = record {
  state = fallback;
  active_manifest_id = none;
  activated_at = none;
  min_dwell_ms = 0;
  freeze_reason = none;
  safe_mode_reason = none;
  cooldowns = [];
  cooldown_ms_for_active = 0;
}

-- The readings of one `on_activate_creative`, in the order in which it takes them.
pub record Readings : Type 0 where
  pub dwell_read : ℕ
  pub cooldown_read : ℕ
  pub left_at : ℕ
  pub entered_at : ℕ

-- A command that takes no time.
abbrev pub at_once : ℕ → Readings
at_once t = record { dwell_read = t; cooldown_read = t; left_at = t; entered_at = t }

-- `self._state == s`
abbrev pub is_state : PlayerState → PlayerState → Bool
is_state fallback fallback = true
is_state active active = true
is_state frozen frozen = true
is_state safe_mode safe_mode = true
is_state _ _ = false

elapsed_since : Option ℕ → ℕ → ℕ → Bool
elapsed_since none d now = true
elapsed_since (some t) d now = leb (t + d) now

unfoldable pub dwell_elapsed : StateMachine → ℕ → Bool
unfolding elapsed_since
dwell_elapsed sm now = elapsed_since sm.activated_at sm.min_dwell_ms now

cooling : Option (ℕ × ℕ) → ℕ → Bool
cooling none now = false
cooling (some (left, d)) now = ltb now (left + d)

unfoldable pub in_cooldown : StateMachine → String → ℕ → Bool
unfolding cooling
in_cooldown sm m now = cooling (lookup m sm.cooldowns) now

-- `self._cooldowns[self._active_manifest_id] = …`, if there is one
unfoldable pub record_cooldown : Option String → ℕ → ℕ → Dict (ℕ × ℕ) → Dict (ℕ × ℕ)
record_cooldown none now d cs = cs
record_cooldown (some m) now d cs = insert m (now, d) cs

unfoldable pub on_activate_creative :
    StateMachine → String → ℕ → ℕ → Readings → StateMachine × TransitionResult
unfolding dwell_elapsed in_cooldown
on_activate_creative sm m dwell cooldown t =
    if is_state sm.state safe_mode
    then (sm, refused show_fallback none "safe_mode")
    else if is_state sm.state active && not (dwell_elapsed sm t.dwell_read)
    then (sm, refused hold sm.active_manifest_id "dwell_not_elapsed")
    else if in_cooldown sm m t.cooldown_read
    then (sm, refused hold sm.active_manifest_id "cooldown")
    else (
      record sm {
        state = active;
        active_manifest_id = some m;
        activated_at = some t.entered_at;
        min_dwell_ms = dwell;
        freeze_reason = none;
        cooldowns =
            record_cooldown sm.active_manifest_id t.left_at sm.cooldown_ms_for_active sm.cooldowns;
        cooldown_ms_for_active = cooldown;
      },
      record {
        accepted = true;
        new_state = active;
        action = play_manifest;
        manifest_id = some m;
        reason = none;
      },
    )
  where
    refused : Action → Option String → String → TransitionResult
    refused a id why = record {
      accepted = false;
      new_state = sm.state;
      action = a;
      manifest_id = id;
      reason = some why;
    }

freeze_in : PlayerState → StateMachine → Option String → StateMachine × TransitionResult
freeze_in safe_mode sm why = (
  sm,
  record {
    accepted = false;
    new_state = sm.state;
    action = show_fallback;
    manifest_id = none;
    reason = some "safe_mode";
  },
)
freeze_in fallback sm why = (
  sm,
  record {
    accepted = false;
    new_state = sm.state;
    action = show_fallback;
    manifest_id = none;
    reason = some "no_active_creative";
  },
)
freeze_in frozen sm why = (
  record sm { freeze_reason = why },
  record {
    accepted = true;
    new_state = sm.state;
    action = hold;
    manifest_id = sm.active_manifest_id;
    reason = none;
  },
)
freeze_in active sm why = (
  record sm { state = frozen; freeze_reason = why },
  record {
    accepted = true;
    new_state = frozen;
    action = hold;
    manifest_id = sm.active_manifest_id;
    reason = none;
  },
)

unfoldable pub on_freeze : StateMachine → Option String → StateMachine × TransitionResult
unfolding freeze_in
on_freeze sm why = freeze_in sm.state sm why

unfoldable pub on_safe_mode : StateMachine → Option String → ℕ → StateMachine × TransitionResult
on_safe_mode sm why now = (
  record sm {
    state = safe_mode;
    safe_mode_reason = why;
    active_manifest_id = none;
    activated_at = none;
    freeze_reason = none;
    cooldowns = record_cooldown sm.active_manifest_id now sm.cooldown_ms_for_active sm.cooldowns;
  },
  record {
    accepted = true;
    new_state = safe_mode;
    action = show_fallback;
    manifest_id = none;
    reason = why;
  },
)

unfoldable pub on_clear_safe_mode : StateMachine → StateMachine × TransitionResult
on_clear_safe_mode sm =
    if not (is_state sm.state safe_mode)
    then (
      sm,
      record {
        accepted = false;
        new_state = sm.state;
        action = hold;
        manifest_id = none;
        reason = some "not_in_safe_mode";
      },
    )
    else (
      record sm { state = fallback; safe_mode_reason = none },
      record {
        accepted = true;
        new_state = fallback;
        action = show_fallback;
        manifest_id = none;
        reason = none;
      },
    )

unfoldable pub on_connection_lost : StateMachine → ℕ → StateMachine × TransitionResult
on_connection_lost sm now =
    if is_state sm.state safe_mode
    then (
      sm,
      record {
        accepted = true;
        new_state = sm.state;
        action = show_fallback;
        manifest_id = none;
        reason = some "connection_lost_in_safe_mode";
      },
    )
    else (
      record sm {
        state = fallback;
        active_manifest_id = none;
        activated_at = none;
        freeze_reason = none;
        cooldowns =
            record_cooldown sm.active_manifest_id now sm.cooldown_ms_for_active sm.cooldowns;
      },
      record {
        accepted = true;
        new_state = fallback;
        action = show_fallback;
        manifest_id = none;
        reason = some "connection_lost";
      },
    )

-- The `status` dictionary.
pub record Status : Type 0 where
  pub state : PlayerState
  pub active_manifest_id : Option String
  pub dwell_elapsed : Option Bool
  pub freeze_reason : Option String
  pub safe_mode_reason : Option String

unfoldable pub status : StateMachine → ℕ → Status
unfolding dwell_elapsed
status sm now = record {
  state = sm.state;
  active_manifest_id = sm.active_manifest_id;
  dwell_elapsed = if is_state sm.state active then some (dwell_elapsed sm now) else none;
  freeze_reason = sm.freeze_reason;
  safe_mode_reason = sm.safe_mode_reason;
}
