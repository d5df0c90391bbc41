-- ===== src/Player/State/Traces.antt =====
-- Sequences of events of the player's state machine: safe mode, dwell and cooldown over time.
use adaptive_advertisement.Common.{
  ℕ, ◌+◌, ◌<◌, String, ◌≡◌, refl, ◌≢◌, ◌↔◌, true, false, Option, none, some, arith, List, [], ◌∷◌,
  All, ap, lookup, lookup-insert, lookup-insert_self, eq_iff,
}
use adaptive_advertisement.Player.State.{
  active, safe_mode, StateMachine, new, Readings, on_activate_creative, on_freeze, on_safe_mode,
  on_clear_safe_mode, on_connection_lost, dwell_elapsed, in_cooldown, record_cooldown,
}
use adaptive_advertisement.Player.State.Invariant.{
  Event, activate_creative, freeze, engage_safe_mode, clear_safe_mode, connection_lost, step, Inv,
  new-Inv, step-Inv,
}

-- The machine after a list of events, the first one first.
unfoldable pub run : StateMachine → List Event → StateMachine
run sm [] = sm
run sm (e ∷ es) = run (step sm e).0 es

run_from-Inv : (sm : StateMachine) (es : List Event) → Inv sm → Inv (run sm es)
unfolding run
run_from-Inv sm [] h = h
run_from-Inv sm (e ∷ es) h = run_from-Inv (step sm e).0 es (step-Inv sm e h)

-- Every machine that any events lead to is well formed.
pub run-Inv : (es : List Event) → Inv (run new es)
run-Inv es = run_from-Inv new es new-Inv

activation_accepted :
    (sm : StateMachine) (m : String) (d c : ℕ) (t : Readings)
    → sm.state ≢ safe_mode
    → (sm.state ≡ active → dwell_elapsed sm t.dwell_read ≡ true)
    → in_cooldown sm m t.cooldown_read ≡ false
    → (on_activate_creative sm m d c t).1.accepted ≡ true
unfolding on_activate_creative
activation_accepted sm m d c t s e k = ground arith

-- An activation is accepted exactly when the player is not in safe mode, a creative that is not
-- frozen has had its dwell, and the manifest is out of its cooldown.
pub activation_accepted_iff :
    (sm : StateMachine) (m : String) (d c : ℕ) (t : Readings)
    → ((on_activate_creative sm m d c t).1.accepted ≡ true) ↔ (
        (sm.state ≢ safe_mode)
        × (sm.state ≡ active → dwell_elapsed sm t.dwell_read ≡ true)
        × (in_cooldown sm m t.cooldown_read ≡ false))
unfolding on_activate_creative
activation_accepted_iff sm m d c t = (
  λ h. (λ e. ground arith, λ e. ground arith, ground arith),
  λ h. activation_accepted sm m d c t h.0 h.1 h.2,
)

abbrev pub IsClear : Event → Type 0
IsClear clear_safe_mode = Unit
IsClear _ = ⊥

step_safe_mode :
    (sm : StateMachine) (e : Event)
    → sm.state ≡ safe_mode
    → ¬ IsClear e
    → (step sm e).0.state ≡ safe_mode
unfolding step on_activate_creative on_freeze on_safe_mode on_clear_safe_mode on_connection_lost
step_safe_mode sm (activate_creative m d c t) s n = ground arith
step_safe_mode sm clear_safe_mode s n = absurd (n tt)
step_safe_mode sm _ s n = ground arith

-- From safe mode, any events but `clear_safe_mode` leave the player in safe mode.
pub safe_mode_sticky :
    (sm : StateMachine) (es : List Event)
    → sm.state ≡ safe_mode
    → All (λ e. ¬ IsClear e) es
    → (run sm es).state ≡ safe_mode
unfolding run
safe_mode_sticky sm [] s h = s
safe_mode_sticky sm (e ∷ es) s h = safe_mode_sticky (step sm e).0 es (step_safe_mode sm e s h.0) h.1

-- An event that cannot end a dwell: an activation read before `limit`, or a clear.
abbrev pub IsBefore : ℕ → Event → Type 0
IsBefore limit (activate_creative m d c t) = t.dwell_read < limit
IsBefore limit clear_safe_mode = Unit
IsBefore limit _ = ⊥

step_dwelling :
    (sm : StateMachine) (e : Event) (entered : ℕ)
    → sm.state ≡ active
    → sm.activated_at ≡ some entered
    → IsBefore (entered + sm.min_dwell_ms) e
    → (step sm e).0 ≡ sm
unfolding step on_activate_creative on_freeze on_safe_mode on_clear_safe_mode dwell_elapsed
step_dwelling sm (activate_creative m d c t) entered s a h = ground arith
step_dwelling sm clear_safe_mode entered s a h = ground arith
step_dwelling sm (freeze why) entered s a h = absurd h
step_dwelling sm (engage_safe_mode why now) entered s a h = absurd h
step_dwelling sm (connection_lost now) entered s a h = absurd h

-- A creative that is shown keeps the screen for its dwell: as long as the only commands are
-- activations that read the clock before the dwell is over, or clears of safe mode, the machine
-- does not change at all.
pub dwell_kept :
    (sm : StateMachine) (es : List Event) (entered : ℕ)
    → sm.state ≡ active
    → sm.activated_at ≡ some entered
    → All (IsBefore (entered + sm.min_dwell_ms)) es
    → run sm es ≡ sm
unfolding run
dwell_kept sm [] entered s a h = refl
dwell_kept sm (e ∷ es) entered s a h =
    rw (step_dwelling sm e entered s a h.0) (dwell_kept sm es entered s a h.1)

-- `m` is off the screen, and its cooldown of `d` ms runs since `left`.
pub record IsCooling (m : String) (left d : ℕ) (sm : StateMachine) : Type 0 where
  pub off_screen : sm.active_manifest_id ≢ some m
  pub entry : lookup m sm.cooldowns ≡ some (left, d)

lookup-record_cooldown :
    (o : Option String) (m : String) (now d : ℕ) (sm : StateMachine)
    → o ≢ some m
    → lookup m (record_cooldown o now d sm.cooldowns) ≡ lookup m sm.cooldowns
unfolding record_cooldown
lookup-record_cooldown none m now d sm h = refl
lookup-record_cooldown (some a) m now d sm h =
    ground (arith, lookup-insert a m (now, d) sm.cooldowns, eq_iff a m, ap {B = Option String} some)

-- Each activation of `m` reads the clock before `limit`.
abbrev pub IsEarly : String → ℕ → Event → Type 0
IsEarly m limit (activate_creative n d c t) = n ≡ m → t.cooldown_read < limit
IsEarly m limit _ = Unit

step-IsCooling :
    (m : String) (left d : ℕ) (sm : StateMachine) (e : Event)
    → IsEarly m (left + d) e
    → IsCooling m left d sm
    → IsCooling m left d (step sm e).0
unfolding step on_activate_creative on_freeze on_safe_mode on_clear_safe_mode on_connection_lost
step-IsCooling m left d sm (activate_creative n e c t) early h = ground (
  arith,
  lookup-record_cooldown sm.active_manifest_id m t.left_at sm.cooldown_ms_for_active sm,
  ap (λ (k : String). lookup k sm.cooldowns),
)
step-IsCooling m left d sm (engage_safe_mode why now) early h =
    ground (arith, lookup-record_cooldown sm.active_manifest_id m now sm.cooldown_ms_for_active sm)
step-IsCooling m left d sm (connection_lost now) early h =
    ground (arith, lookup-record_cooldown sm.active_manifest_id m now sm.cooldown_ms_for_active sm)
step-IsCooling m left d sm _ early h = ground arith

-- A manifest that has left the screen stays off it until its cooldown is over, whatever other
-- events come, as long as its own activations read the clock before that.
pub cooldown_kept :
    (m : String) (left d : ℕ) (sm : StateMachine) (es : List Event)
    → IsCooling m left d sm
    → All (IsEarly m (left + d)) es
    → (run sm es).active_manifest_id ≢ some m
unfolding run
cooldown_kept m left d sm [] h early = h.off_screen
cooldown_kept m left d sm (e ∷ es) h early =
    cooldown_kept m left d (step sm e).0 es (step-IsCooling m left d sm e early.0 h) early.1

-- A switch to another manifest starts the cooldown of the one that was shown, with the length
-- that came with its own activation.
pub switch-IsCooling :
    (sm : StateMachine) (old m : String) (d c : ℕ) (t : Readings)
    → sm.active_manifest_id ≡ some old
    → m ≢ old
    → (on_activate_creative sm m d c t).1.accepted ≡ true
    → IsCooling old t.left_at sm.cooldown_ms_for_active (on_activate_creative sm m d c t).0
unfolding on_activate_creative record_cooldown
switch-IsCooling sm old m d c t shown ne h =
    ground (arith, lookup-insert_self old (t.left_at, sm.cooldown_ms_for_active) sm.cooldowns)
