-- ===== src/Scenarios/Machines.antt =====
-- Runs of the player's state machine.
use adaptive_advertisement.Common.{◌≡◌, ◌≢◌, refl, arith, none, some, List, [], ◌∷◌, lookup}
use adaptive_advertisement.Player.State.{StateMachine, active, safe_mode, new, at_once}
use adaptive_advertisement.Player.State.Invariant.{
  Event, activate_creative, freeze, connection_lost,
}
use adaptive_advertisement.Player.State.Traces.{run, safe_mode_sticky, dwell_kept, cooldown_kept}

-- "lobby" is on the screen since 100 for a dwell of 50, and "menu" left at 100.
abbrev pub playing : StateMachine
playing = record new {
  state = active;
  active_manifest_id = some "lobby";
  activated_at = some 100;
  min_dwell_ms = 50;
  cooldowns = ("menu", (100, 30)) ∷ [];
  cooldown_ms_for_active = 30;
}

abbrev locked : StateMachine
locked = record new { state = safe_mode; safe_mode_reason = some "boot_loop_protection" }

abbrev asked : List Event
asked = activate_creative "lobby" 50 30 (at_once 500) ∷ freeze none ∷ connection_lost 700 ∷ []

safe_mode_sticky_example : (run locked asked).state ≡ safe_mode
safe_mode_sticky_example = safe_mode_sticky locked asked refl (λ c. c, (λ c. c, (λ c. c, tt)))

dwell_kept_example :
    run playing (
      activate_creative "menu" 50 30 (at_once 120)
      ∷ activate_creative "door" 50 30 (at_once 149)
      ∷ [])
    ≡ playing
dwell_kept_example =
    dwell_kept playing
      (activate_creative "menu" 50 30 (at_once 120)
        ∷ activate_creative "door" 50 30 (at_once 149)
        ∷ [])
      100 refl refl (omega arith, (omega arith, tt))

cooldown_kept_example :
    (run playing
      (freeze none ∷ activate_creative "menu" 50 30 (at_once 129) ∷ [])).active_manifest_id
    ≢ some "menu"
unfolding lookup
cooldown_kept_example =
    cooldown_kept "menu" 100 30 playing
      (freeze none ∷ activate_creative "menu" 50 30 (at_once 129) ∷ [])
      (record { off_screen = λ e. cc e; entry = refl }) (tt, (λ e. omega arith, tt))
