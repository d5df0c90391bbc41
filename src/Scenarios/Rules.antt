-- ===== src/Scenarios/Rules.antt =====
-- Generated rules and what the engine does with them.
use adaptive_advertisement.Common.{
  ℕ, ◌≡◌, refl, ◌↔◌, inl, true, false, none, some, [], ◌∷◌, IsIn, arith,
}
use adaptive_advertisement.Decision.Signal.{Signal, male, formal}
use adaptive_advertisement.Decision.Policy.{
  matches, presence_ok, attention_ok, suppressed_ok, demographics_ok, has_demographic_condition,
  time_ok, is_empty,
}
use adaptive_advertisement.Dashboard.Tags.{
  male_focus, attire_formal, general, time_lunch, promo_featured, TimeTag, audience, time, occasion,
  dimension, is_gate_excluded, audience_conditions, time_window, freq_reminder,
}
use adaptive_advertisement.Dashboard.Rules.{
  Tagged, GeneratedRule, inject_attention_gate, restrict, window_slots, plain_rule, timed_rule,
  is_crossed, cross_rule, generate_cross_dim_rules,
}
use adaptive_advertisement.Dashboard.Rules.Generate.{
  audience_of, times_of, bonus_of, frequency_of, generate_rules_for_manifest, build_rules,
  all_rules, numbered, has_fallback, is_unconditional,
}
use adaptive_advertisement.Dashboard.Rules.Synced.{rule_of}
use adaptive_advertisement.Dashboard.Rules.Gate.{unengaged_untargeted}
use adaptive_advertisement.Dashboard.Rules.Cross.{cross-matches_iff}
use adaptive_advertisement.Dashboard.Rules.Hours.{IsOpenAt, rules_in_hours}

abbrev pub suits : Tagged
suits = record {
  manifest_id = "suits";
  audience_tags =
      some (audience male_focus ∷ audience attire_formal ∷ occasion promo_featured ∷ []);
}

abbrev pub lunch : Tagged
lunch = record {
  manifest_id = "lunch";
  audience_tags = some (time time_lunch ∷ audience general ∷ []);
}

abbrev pub untagged : Tagged
untagged = record { manifest_id = "untagged"; audience_tags = none }

-- A man in formal dress, who looks at the display or not.
abbrev pub visitor : (engaged : ℕ) → Signal
visitor engaged = record {
  message_id = "s-1";
  presence = some (record { count = 1; confidence = 9_000 });
  demographics = some (record {
    suppressed = some false;
    bins = λ b. elim b [ male ↦ some 8_000 | formal ↦ some 7_000 | _ ↦ none ];
  });
  attention = some (record { engaged = some engaged });
  freeze_decision = some false;
  pipeline_degraded = some false;
}

cross-matches_iff_example :
    ((matches
          (rule_of (cross_rule "suits" 15 none 0 none male_focus attire_formal))
          (visitor 5_000)
          (some 12)
          12
        ≡ true)
      ↔ ((matches (rule_of (plain_rule "suits" 15 male_focus)) (visitor 5_000) (some 12) 12 ≡ true)
          × (matches (rule_of (plain_rule "suits" 15 attire_formal)) (visitor 5_000) (some 12) 12
              ≡ true)))
    × ((matches
            (rule_of (
              cross_rule "suits" 15
                (some time_lunch)
                0
                (some (record { gte = 11; lte = 13 }))
                male_focus
                attire_formal))
            (visitor 5_000)
            (some 12)
            12
          ≡ true)
        ↔ ((matches
                (rule_of (
                  timed_rule "suits" 15 time_lunch 0
                    (some (record { gte = 11; lte = 13 }))
                    male_focus))
                (visitor 5_000)
                (some 12)
                12
              ≡ true)
            × (matches
                  (rule_of (
                    timed_rule "suits" 15 time_lunch 0
                      (some (record { gte = 11; lte = 13 }))
                      attire_formal))
                  (visitor 5_000)
                  (some 12)
                  12
                ≡ true)))
unfolding is_crossed dimension
cross-matches_iff_example =
    cross-matches_iff "suits" 15 time_lunch 0 (some (record { gte = 11; lte = 13 })) male_focus
      attire_formal (visitor 5_000) 12 refl

-- At noon the rule of `lunch` matches.
rules_in_hours_example : (t : TimeTag) × IsIn t (time_lunch ∷ []) × IsOpenAt t 12
unfolding generate_rules_for_manifest times_of frequency_of matches timed_rule restrict
    inject_attention_gate is_gate_excluded audience_conditions time_window window_slots audience_of
    presence_ok attention_ok suppressed_ok demographics_ok has_demographic_condition time_ok
    bonus_of generate_cross_dim_rules dimension freq_reminder is_empty
rules_in_hours_example =
    rules_in_hours lunch (time time_lunch ∷ audience general ∷ [])
      (timed_rule "lunch" 0 time_lunch 0 (some (record { gte = 11; lte = 13 })) general)
      (visitor 5_000) 12 refl (cc) refl (inl refl) refl

abbrev lunch_rule : GeneratedRule
lunch_rule =
    record (timed_rule "lunch" 0 time_lunch 0 (some (record { gte = 11; lte = 13 })) general) {
      tiebreak_index = some 0;
    }

unengaged_untargeted_example : lunch_rule.conditions.demographic_gte male ≡ none
unfolding generate_rules_for_manifest times_of frequency_of matches timed_rule restrict
    inject_attention_gate is_gate_excluded audience_conditions time_window window_slots audience_of
    presence_ok attention_ok suppressed_ok demographics_ok has_demographic_condition time_ok
    bonus_of generate_cross_dim_rules dimension freq_reminder is_empty build_rules all_rules
    numbered has_fallback is_unconditional
unengaged_untargeted_example =
    unengaged_untargeted (lunch ∷ []) lunch_rule (visitor 1_000) 12 1_000
      (record { engaged = some 1_000 }) (inl refl) refl refl (omega arith) refl male
