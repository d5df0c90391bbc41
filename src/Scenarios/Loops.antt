-- ===== src/Scenarios/Loops.antt =====
-- Runs of the decision loop.
use adaptive_advertisement.Common.{ℕ, ◌≡◌, refl, false, none, some, [], ◌∷◌}
use adaptive_advertisement.Decision.Policy.{
  new_engine, evaluate, matches, sort_rules, insert_rule, choices, choose_from, select, presence_ok,
  attention_ok, suppressed_ok, demographics_ok, has_demographic_condition, time_ok,
}
use adaptive_advertisement.Decision.Loop.{DecisionLoop, Moment, freeze_reason}
use adaptive_advertisement.Decision.Loop.Runs.{Reading, reason_of, sent_by, run}
use adaptive_advertisement.Decision.Loop.Commands.{IsChosen, never_retried}
use adaptive_advertisement.Scenarios.Policies.{config, signal_of, first}
use adaptive_advertisement.Scenarios.Gateways.{network, gateway}

abbrev moment : Moment
moment = record {
  stale_signal_threshold_ms = 5_000;
  network = network;
  draw = first;
  utc_hour = 12;
  rationale = λ s f. "policy rule match";
}

abbrev pub deciding : DecisionLoop
deciding = record {
  policy = new_engine config;
  gateway = gateway;
  current_manifest_id = some "lobby";
  player_frozen = false;
  tick_count = 0;
  command_count = 0;
  freeze_count = 0;
}

abbrev pub reading : (count age : ℕ) → Reading
reading count age = record { moment = moment; signal = some (signal_of count); age = some age }

six_at :
    (age : ℕ)
    → reason_of (reading 6 age) ≡ none
    → IsChosen (new_engine config) "menu" (reading 6 age)
unfolding evaluate new_engine sort_rules insert_rule matches presence_ok attention_ok suppressed_ok
    demographics_ok has_demographic_condition time_ok select choose_from choices
six_at age h = record { signal = signal_of 6; signal_is = refl; no_reason = h; evaluates = refl }

crowd : IsChosen deciding.policy "menu" (reading 6 20)
unfolding reason_of freeze_reason
crowd = six_at 20 refl

crowd_later : IsChosen deciding.policy "menu" (reading 6 900)
unfolding reason_of freeze_reason
crowd_later = six_at 900 refl

never_retried_example :
    (run deciding (reading 6 20 ∷ reading 6 900 ∷ [])).1 ≡ sent_by deciding (reading 6 20)
never_retried_example =
    never_retried deciding "menu" (reading 6 20) (reading 6 900 ∷ []) (crowd, (crowd_later, tt))
