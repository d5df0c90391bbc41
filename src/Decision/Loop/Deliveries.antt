-- ===== src/Decision/Loop/Deliveries.antt =====
-- The numbers and payloads of what a tick sends for a selected manifest.
use adaptive_advertisement.Common.{
  ◌+◌, String, ◌≡◌, inl, inr, Bool-cases, not, ◌||◌, Option, none, some, All, opt_eq,
}
use adaptive_advertisement.Common.Outcome.{Outcome, ok}
use adaptive_advertisement.Decision.Signal.{Signal}
use adaptive_advertisement.Decision.Policy.{evaluate}
use adaptive_advertisement.Decision.Gateway.Sends.{
  IsNextActivation, send_activate_creative-IsNextActivation,
}
use adaptive_advertisement.Decision.Loop.{
  DecisionLoop, Moment, activate, decide, tick_signal, tick_on, tick_with,
}
use adaptive_advertisement.Decision.Loop.Runs.{Reading, reason_of, sent_by}
use adaptive_advertisement.Decision.Loop.Commands.{IsChosen}

activate-IsNextActivation :
    (t : Moment) (l : DecisionLoop) (s : Signal) (m : String)
    → All (IsNextActivation t.network l.gateway m l.policy.config.min_dwell_ms) (activate t l s m).2
unfolding activate
activate-IsNextActivation t l s m =
    elim (Bool-cases (not (opt_eq l.current_manifest_id m) || l.player_frozen)) [
      | inl changed ↦ rw changed (
          send_activate_creative-IsNextActivation t.network l.gateway m l.policy.config.min_dwell_ms
            l.policy.config.cooldown_ms (some (t.rationale s l.player_frozen)))
      | inr same ↦ rw same tt
    ]

decided-IsNextActivation :
    (t : Moment) (l : DecisionLoop) (s : Signal) (m : String) (o : Outcome (Option String))
    → o ≡ ok (some m)
    → All (IsNextActivation t.network l.gateway m l.policy.config.min_dwell_ms) (decide t l s o).2
unfolding decide
decided-IsNextActivation t l s m o e = rw e (activate-IsNextActivation t l s m)

chosen-IsNextActivation :
    (t : Moment) (l : DecisionLoop) (signal : Option Signal) (s : Signal) (reason : Option String)
    (m : String)
    → signal ≡ some s
    → reason ≡ none
    → evaluate t.draw t.utc_hour l.policy s ≡ ok (some m)
    → All
        (IsNextActivation t.network l.gateway m l.policy.config.min_dwell_ms)
        (tick_on t l signal reason).2
unfolding tick_on tick_signal
chosen-IsNextActivation t l signal s reason m is no_reason evaluates =
    rw (is, no_reason) (decided-IsNextActivation t l s m _ evaluates)

-- All that a tick sends for a manifest that the policy selects are activations of it, with the
-- policy's dwell time and the gateway's next number.
pub sent_by-IsNextActivation :
    (l : DecisionLoop) (r : Reading) (m : String)
    → IsChosen l.policy m r
    → All (IsNextActivation r.moment.network l.gateway m l.policy.config.min_dwell_ms) (sent_by l r)
unfolding reason_of sent_by tick_with
sent_by-IsNextActivation l r m c =
    chosen-IsNextActivation r.moment (record l { tick_count = l.tick_count + 1 }) r.signal c.signal
      (reason_of r) m c.signal_is c.no_reason c.evaluates
