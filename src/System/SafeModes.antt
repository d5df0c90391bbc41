-- ===== src/System/SafeModes.antt =====
-- The safe-mode intent of dashboard-api (routers/system.py) and the supervisor's relay
-- (services/supervisor/supervisor/safe_mode_relay.py) that polls it.
use adaptive_advertisement.Common.{
  ℕ, String, ◌≡◌, Bool, false, Option, none, some, List, [], Dict, lookup, arith,
}
use adaptive_advertisement.Supervisor.Relay.{
  SafeModeRelay, Intent, answered, PlayerStatus, poll_dashboard, tick, Request,
}
use adaptive_advertisement.Dashboard.SafeMode.{
  SafeModeInfo, Store, get_safe_mode, Value, flag, text, body,
}
use adaptive_advertisement.Dashboard.SafeMode.Intent.{Operation, apply_all}

-- A JSON value as the relay takes it: `null` is None.
flag_of : Option Value → Option Bool
flag_of (some (flag b)) = some b
flag_of _ = none

text_of : Option Value → Option String
text_of (some (text s)) = some s
text_of _ = none

-- `intent.get("is_active", False)` and `intent.get("reason")`
unfoldable pub read_intent : Dict Value → Intent
unfolding flag_of text_of
read_intent json = record {
  is_active = flag_of (lookup "is_active" json);
  reason = text_of (lookup "reason" json);
}

-- One tick of the relay against the dashboard.
unfoldable pub tick_on :
    (now : ℕ) → Store → PlayerStatus → SafeModeRelay → SafeModeRelay × List Request
tick_on now s player r = tick (answered 200 (read_intent (body (get_safe_mode now s).0))) player r

no_intent : (i : SafeModeInfo) → (read_intent (body i)).is_active ≡ none
unfolding read_intent body lookup flag_of
no_intent i = ground arith

-- The operator's safe mode never reaches the player: whatever was asked of the dashboard, a relay that
-- has not engaged reads in its answer that no safe mode is wanted, and sends nothing. The answer says
-- `active`, and the relay reads `is_active`.
pub intent_lost :
    (os : List Operation) (now : ℕ) (s : Store) (player : PlayerStatus) (r : SafeModeRelay)
    → r.engaged_by_dashboard ≡ false
    → tick_on now (apply_all os s) player r ≡ (r, [])
unfolding tick_on tick poll_dashboard
intent_lost os now s player r idle = rw (no_intent (get_safe_mode now (apply_all os s)).0, idle)
