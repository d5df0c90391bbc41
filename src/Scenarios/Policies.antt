-- ===== src/Scenarios/Policies.antt =====
-- Evaluations of a policy.
use adaptive_advertisement.Common.{
  ℕ, ◌≡◌, ◌≤◌, ◌↔◌, refl, String, true, false, none, some, List, [], ◌∷◌, IsIn,
}
use adaptive_advertisement.Decision.Signal.{Signal}
use adaptive_advertisement.Decision.Policy.{
  Conditions, Rule, PolicyConfig, new_engine, evaluate, matches, sort_rules, insert_rule, choices,
  choose_from, select, presence_ok, attention_ok, suppressed_ok, demographics_ok,
  has_demographic_condition, time_ok,
}
use adaptive_advertisement.Decision.Policy.Evaluation.{evaluate_top}
use adaptive_advertisement.Decision.Policy.Matching.{Satisfies, matches_iff}

abbrev pub anyone : Conditions
anyone = record {
  presence_count_gte = none;
  presence_count_lte = none;
  presence_count_eq = none;
  presence_confidence_gte = none;
  demographic_gte = λ b. none;
  demographics_suppressed_eq = none;
  attention_engaged_gte = none;
  time_hour_gte = none;
  time_hour_lte = none;
}

abbrev pub rule : (id manifest : String) → (priority : ℕ) → Conditions → Rule
rule id manifest priority c = record {
  rule_id = id;
  priority = priority;
  manifest_id = manifest;
  weight = 1_000;
  conditions = c;
}

abbrev default_rule : Rule
default_rule = rule "default" "lobby" 0 anyone

abbrev crowd_rule : Rule
crowd_rule = rule "crowd" "menu" 5 (record anyone { presence_count_gte = some 4 })

abbrev pub config : PolicyConfig
config = record {
  rules = default_rule ∷ crowd_rule ∷ [];
  min_dwell_ms = 10_000;
  cooldown_ms = 5_000;
}

abbrev pub signal_of : ℕ → Signal
signal_of count = record {
  message_id = "s-1";
  presence = some (record { count = count; confidence = 9_000 });
  demographics = none;
  attention = none;
  freeze_decision = some false;
  pipeline_degraded = some false;
}

abbrev pub first : List ℕ → ℕ
first weights = 0

evaluate_top_example :
    (r : Rule) × IsIn r config.rules
    × (r.manifest_id ≡ "menu")
    × (matches r (signal_of 6) (some 12) 12 ≡ true)
    × ((x : Rule)
        → IsIn x config.rules
        → matches x (signal_of 6) (some 12) 12 ≡ true
        → x.priority ≤ r.priority)
unfolding evaluate new_engine sort_rules insert_rule matches presence_ok attention_ok suppressed_ok
    demographics_ok has_demographic_condition time_ok select choose_from choices
evaluate_top_example = evaluate_top first 12 config (signal_of 6) "menu" refl

matches_iff_example :
    (matches crowd_rule (signal_of 6) (some 12) 12 ≡ true) ↔ Satisfies crowd_rule (signal_of 6) 12
matches_iff_example = matches_iff crowd_rule (signal_of 6) 12
