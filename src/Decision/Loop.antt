-- ===== src/Decision/Loop.antt =====
-- services/decision-optimizer/decision_optimizer/decision_loop.py: one decision per second.
-- `latest_signal` and `signal_age_ms()` are read from the consumer; the gateway is part of the state.
-- The rationale of an activation, a text for people, is a parameter.
pub mod Runs
pub mod Freeze
pub mod Commands
pub mod Deliveries
use adaptive_advertisement.Common.{
  ℕ, ◌+◌, String, Bool, true, false, not, ◌&&◌, ◌||◌, Option, none, some, List, [], ◌∷◌, ltb,
  if◌then◌else◌, opt_eq,
}
use adaptive_advertisement.Common.Outcome.{Outcome, ok, raised}
use adaptive_advertisement.Decision.Signal.{Signal, or_false}
use adaptive_advertisement.Decision.Policy.{PolicyEngine, evaluate}
use adaptive_advertisement.Decision.Consumer.{SignalConsumer, signal_age_ms}
use adaptive_advertisement.Decision.Gateway.{
  Gateway, Network, Delivery, send_freeze, send_activate_creative,
}

pub record DecisionLoop : Type 0 where
  pub policy : PolicyEngine
  pub gateway : Gateway
  pub current_manifest_id : Option String
  pub player_frozen : Bool
  pub tick_count : ℕ
  pub command_count : ℕ
  pub freeze_count : ℕ

unfoldable pub reload_policy : DecisionLoop → PolicyEngine → DecisionLoop
reload_policy l p = record l { policy = p }

-- What a tick reads from outside: the clocks, the network, the random draw, and the text of the
-- rationale.
pub record Moment : Type 0 where
  pub stale_signal_threshold_ms : ℕ
  pub network : Network
  pub draw : List ℕ → ℕ
  pub utc_hour : ℕ
  pub rationale : Signal → Bool → String

is_stale : Option ℕ → ℕ → Bool
is_stale none limit = false
is_stale (some age) limit = ltb limit age

unfoldable pub freeze_reason : ℕ → Option Signal → Option ℕ → Option String
unfolding is_stale
freeze_reason limit none age = none
freeze_reason limit (some s) age =
    if is_stale age limit
    then some "decision_degraded"
    else if or_false s.pipeline_degraded
    then some "cv_degraded"
    else if or_false s.freeze_decision
    then some "operator_override"
    else none

-- The state afterwards and what the players got; an exception of the policy is `false`.
abbrev pub Tick : Type 0
Tick = DecisionLoop × Bool × List Delivery

tick_frozen : Moment → DecisionLoop → String → Tick
tick_frozen t l reason =
    if not l.player_frozen
    then (let (g, sent, out) = send_freeze t.network l.gateway (some reason) in
        (
          record l {
            gateway = g;
            player_frozen = true;
            freeze_count = l.freeze_count + 1;
            command_count = l.command_count + sent;
          },
          true,
          out,
        ))
    else (l, true, [])

activate : Moment → DecisionLoop → Signal → String → Tick
activate t l s candidate =
    let (g, sent, out) =
      send_activate_creative t.network l.gateway candidate l.policy.config.min_dwell_ms
        l.policy.config.cooldown_ms (some (t.rationale s l.player_frozen)) in
    if not (opt_eq l.current_manifest_id candidate) || l.player_frozen
    then (
      record l {
        gateway = g;
        player_frozen = false;
        command_count = l.command_count + sent;
        current_manifest_id = some candidate;
      },
      true,
      out,
    )
    else (record l { player_frozen = false }, true, [])

decide : Moment → DecisionLoop → Signal → Outcome (Option String) → Tick
unfolding activate
decide t l s (raised e) = (l, false, [])
decide t l s (ok none) = (l, true, [])
decide t l s (ok (some candidate)) = activate t l s candidate

tick_signal : Moment → DecisionLoop → Option Signal → Tick
unfolding decide
tick_signal t l none = (l, true, [])
tick_signal t l (some s) = decide t l s (evaluate t.draw t.utc_hour l.policy s)

tick_on : Moment → DecisionLoop → Option Signal → Option String → Tick
unfolding tick_frozen tick_signal
tick_on t l s (some reason) = tick_frozen t l reason
tick_on t l s none = tick_signal t l s

-- One `_tick` over the signal and its age.
unfoldable pub tick_with : Moment → DecisionLoop → Option Signal → Option ℕ → Tick
unfolding tick_on
tick_with t l s age =
    tick_on t (record l { tick_count = l.tick_count + 1 }) s
      (freeze_reason t.stale_signal_threshold_ms s age)

unfoldable pub tick : Moment → DecisionLoop → SignalConsumer → (now : ℕ) → Tick
tick t l c now = tick_with t l c.latest (signal_age_ms c now)
