-- ===== src/Scenarios/Intents.antt =====
-- The operator's safe mode, and the relay that should pass it on.
use adaptive_advertisement.Common.{◌≡◌, refl, true, some, none, List, [], ◌∷◌}
use adaptive_advertisement.Supervisor.Relay
use adaptive_advertisement.Dashboard.SafeMode.{Store, get_safe_mode}
use adaptive_advertisement.Dashboard.SafeMode.Intent.{
  Operation, engage, read, apply_all, safe_mode_intent,
}
use adaptive_advertisement.System.SafeModes.{tick_on, intent_lost}

abbrev fresh : Store
fresh = record { row = none; audit_events = [] }

abbrev operations : List Operation
operations = read 1 ∷ engage 2 "spill" "ann" ∷ engage 3 "again" "bob" ∷ []

safe_mode_intent_example :
    (get_safe_mode 9 (apply_all operations fresh)).0
    ≡ record { active = true; reason = some "spill"; activated_at = some 2 }
safe_mode_intent_example = safe_mode_intent operations 9 fresh refl

intent_lost_example : tick_on 9 (apply_all operations fresh) (some 200) Relay.new ≡ (Relay.new, [])
intent_lost_example = intent_lost operations 9 fresh (some 200) Relay.new refl
