-- ===== src/Player/Command/Machine.antt =====
-- What a command does to the state machine.
use adaptive_advertisement.Common.{
  String, ◌≡◌, refl, Bool-cases, Option, none, some, arith, inl, inr,
}
use adaptive_advertisement.Common.Outcome.{Outcome, ok, raised, ◌>>=◌}
use adaptive_advertisement.Seen.{is_seen}
use adaptive_advertisement.Manifest.{Manifest}
use adaptive_advertisement.Player.Manifests
use adaptive_advertisement.Player.Manifests.{check_manifest}
use adaptive_advertisement.Player.State.{TransitionResult, StateMachine}
use adaptive_advertisement.Player.State.Invariant
use adaptive_advertisement.Player.State.Invariant.{Inv, step, step-Inv}
use adaptive_advertisement.Player.State.Fits.{
  Fits, Follows, activate-Fits, freeze-Fits, safe_mode-Fits, clear-Fits,
}
use adaptive_advertisement.Player.Command.{
  CommandType, activate_creative, freeze, safe_mode, clear_safe_mode, Activation, Command,
  CommandHandler, Surroundings, Handled, dropped, transition, failed, cooldown_of, rejected,
  activate_checked, activate_known, handle_activate_creative, dispatch_type, dispatch, settle,
  out_of_order, record_command, handle_command,
}

rejected-Fits : (sm : StateMachine) (why : String) → Fits sm sm (rejected sm why)
unfolding rejected
rejected-Fits sm why = ground arith

-- Only a transition changes the machine, and the screen can follow it.
abbrev pub HandledWell : StateMachine → CommandHandler × Handled → Type 0
HandledWell old (h, dropped) = h.sm ≡ old
HandledWell old (h, transition res) = Follows old h.sm res
HandledWell old (h, failed) = h.sm ≡ old

abbrev DispatchedWell : StateMachine → Outcome (CommandHandler × TransitionResult) → Type 0
DispatchedWell old (ok (h, res)) = Follows old h.sm res
DispatchedWell old (raised e) = Unit

module _ (env : Surroundings) (h : CommandHandler) (inv : Inv h.sm) where
  rejected-Follows : (why : String) → Follows h.sm h.sm (rejected h.sm why)
  rejected-Follows why = record { machine = inv; fits = rejected-Fits h.sm why }

  checked-Follows :
      (p : Activation) (o : Option String)
      → Follows h.sm (activate_checked env h p o).0.sm (activate_checked env h p o).1
  unfolding activate_checked step
  checked-Follows p (some why) = rejected-Follows why
  checked-Follows p none = record {
    machine =
        step-Inv h.sm
          (Invariant.activate_creative p.manifest_id p.min_dwell_ms (cooldown_of p.cooldown_ms)
            env.readings)
          inv;
    fits = activate-Fits h.sm p.manifest_id p.min_dwell_ms (cooldown_of p.cooldown_ms) env.readings;
  }

  result-DispatchedWell :
      (p : Activation) (r : Outcome (Option String))
      → DispatchedWell h.sm (r >>= λ why. ok (activate_checked env h p why))
  result-DispatchedWell p (raised e) = tt
  result-DispatchedWell p (ok o) = checked-Follows p o

  known-DispatchedWell :
      (p : Activation) (o : Option Manifest) → DispatchedWell h.sm (activate_known env h p o)
  unfolding activate_known
  known-DispatchedWell p none = rejected-Follows "unknown_manifest"
  known-DispatchedWell p (some m) =
      result-DispatchedWell p (check_manifest env.expiry_of env.wall_clock m)

  activation-DispatchedWell :
      (o : Option Activation) → DispatchedWell h.sm (handle_activate_creative env h o)
  unfolding handle_activate_creative
  activation-DispatchedWell none = tt
  activation-DispatchedWell (some p) = known-DispatchedWell p (Manifests.get p.manifest_id h.store)

  type-DispatchedWell :
      (t : CommandType) (c : Command) → DispatchedWell h.sm (dispatch_type t env h c)
  unfolding dispatch_type step
  type-DispatchedWell activate_creative c = activation-DispatchedWell c.activation
  type-DispatchedWell freeze c = record {
    machine = step-Inv h.sm (Invariant.freeze c.freeze_reason) inv;
    fits = freeze-Fits h.sm c.freeze_reason;
  }
  type-DispatchedWell safe_mode c = record {
    machine = step-Inv h.sm (Invariant.engage_safe_mode c.safe_mode_reason env.monotonic) inv;
    fits = safe_mode-Fits h.sm c.safe_mode_reason env.monotonic;
  }
  type-DispatchedWell clear_safe_mode c = record {
    machine = step-Inv h.sm Invariant.clear_safe_mode inv;
    fits = clear-Fits h.sm;
  }

settle-HandledWell :
    (h : CommandHandler) (r : Outcome (CommandHandler × TransitionResult))
    → DispatchedWell h.sm r
    → HandledWell h.sm (settle h r)
unfolding settle
settle-HandledWell h (ok (h', res)) w = w
settle-HandledWell h (raised e) w = refl

pub handle_command-HandledWell :
    (env : Surroundings) (h : CommandHandler) (c : Command)
    → Inv h.sm
    → HandledWell h.sm (handle_command env h c)
unfolding handle_command dispatch record_command
handle_command-HandledWell env h c inv =
    elim (Bool-cases (is_seen c.command_id h.seen_command_ids)) [
      | inl old ↦ rw old refl
      | inr new ↦ elim (Bool-cases (out_of_order h.last_sequence c.sequence_number)) [
        | inl late ↦ rw (new, late) refl
        | inr next ↦
            rw (new, next)
              (settle-HandledWell (record_command h c) _
                (type-DispatchedWell env (record_command h c) inv c.command_type c))
      ]
    ]
