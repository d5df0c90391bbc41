-- ===== src/Dashboard/Rules/Generate.antt =====
-- services/dashboard-api/dashboard_api/rule_generator.py: `generate_rules_for_manifest` and
-- `build_rules_file`.
pub mod Origins
use Prim.Native.String
use adaptive_advertisement.Common.{
  ℕ, zero, suc, ◌+◌, String, Bool, true, false, not, ◌&&◌, Option, none, some, List, [], ◌∷◌, ◌++◌,
  map, if◌then◌else◌, any, all, sum, is_some,
}
use adaptive_advertisement.Decision.Policy.{
  Conditions, RawRule, RulesFile, demographic_fields, is_empty,
}
use adaptive_advertisement.Dashboard.Tags.{
  AudienceTag, TimeTag, OccasionTag, FrequencyTag, freq_primary, Tag, audience, time, occasion,
  frequency, unknown, unconditional, present, Slot, time_window, occasion_priority_bonus, Reminder,
  freq_reminder,
}
use adaptive_advertisement.Dashboard.Rules.{
  Tagged, GeneratedRule, ◌⧺◌, window_slots, made, plain_rule, timed_rule, presence_rule,
  generate_cross_dim_rules,
}

-- `[t for t in tags if t in AUDIENCE_TAGS]`
unfoldable pub audience_of : List Tag → List AudienceTag
audience_of [] = []
audience_of (audience a ∷ tags) = a ∷ audience_of tags
audience_of (t ∷ tags) = audience_of tags

unfoldable pub times_of : List Tag → List TimeTag
times_of [] = []
times_of (time t ∷ tags) = t ∷ times_of tags
times_of (t ∷ tags) = times_of tags

-- the sum of the occasion bonuses
unfoldable pub bonus_of : List Tag → ℕ
bonus_of [] = 0
bonus_of (occasion o ∷ tags) = occasion_priority_bonus o + bonus_of tags
bonus_of (t ∷ tags) = bonus_of tags

-- the first frequency tag
unfoldable pub frequency_of : List Tag → FrequencyTag
frequency_of [] = freq_primary
frequency_of (frequency f ∷ tags) = f
frequency_of (t ∷ tags) = frequency_of tags

-- The rules of one slot of a time tag.
slot_rules : String → ℕ → List AudienceTag → TimeTag → ℕ → Option Slot → List GeneratedRule
slot_rules id bonus [] t idx slot = presence_rule id bonus t idx slot ∷ []
slot_rules id bonus (a ∷ tags) t idx slot =
    map (timed_rule id bonus t idx slot) (a ∷ tags)
    ++ generate_cross_dim_rules id bonus (some t) idx slot (a ∷ tags)

-- `for slot_idx, slot in enumerate(window_slots)`, from the index `idx` on
window_rules : String → ℕ → List AudienceTag → TimeTag → ℕ → List (Option Slot) → List GeneratedRule
window_rules id bonus tags t idx [] = []
window_rules id bonus tags t idx (slot ∷ slots) =
    slot_rules id bonus tags t idx slot ++ window_rules id bonus tags t (idx + 1) slots

-- `for time_tag in time_tags`
time_rules : String → ℕ → List AudienceTag → List TimeTag → List GeneratedRule
unfolding window_rules slot_rules
time_rules id bonus tags [] = []
time_rules id bonus tags (t ∷ ts) =
    window_rules id bonus tags t 0 (window_slots (time_window t)) ++ time_rules id bonus tags ts

-- The rules before the reminder.
primary_rules : String → ℕ → List AudienceTag → List TimeTag → List GeneratedRule
primary_rules id bonus tags [] =
    map (plain_rule id bonus) tags ++ generate_cross_dim_rules id bonus none 0 none tags
primary_rules id bonus tags (t ∷ ts) = time_rules id bonus tags (t ∷ ts)

unfoldable pub reminder_rule : String → Reminder → GeneratedRule
unfolding made
reminder_rule id r = made ("autogen-" ⧺ id ⧺ "-reminder") r.priority r.weight id (present 1 6_000)

-- `if reminder_cfg and rules`
with_reminder : String → Option Reminder → List GeneratedRule → List GeneratedRule
with_reminder id (some r) (g ∷ gs) = (g ∷ gs) ++ reminder_rule id r ∷ []
with_reminder id _ gs = gs

generate_for_tags : String → List Tag → List GeneratedRule
unfolding with_reminder primary_rules time_rules
generate_for_tags id tags =
    with_reminder id (freq_reminder (frequency_of tags))
      (primary_rules id (bonus_of tags) (audience_of tags) (times_of tags))

-- `tags = manifest.audience_tags or []`, and no tags give no rule
generate_if_tagged : String → Option (List Tag) → List GeneratedRule
unfolding generate_for_tags
generate_if_tagged id none = []
generate_if_tagged id (some tags) = if is_empty tags then [] else generate_for_tags id tags

unfoldable pub generate_rules_for_manifest : Tagged → List GeneratedRule
unfolding generate_if_tagged
generate_rules_for_manifest m = generate_if_tagged m.manifest_id m.audience_tags

unfoldable pub is_none {ℓ} : {A : Type ℓ} → Option A → Bool
is_none o = not (is_some o)

-- `len(conditions) == 0`
unfoldable pub is_unconditional : Conditions → Bool
unfolding is_none
is_unconditional c =
    is_none c.presence_count_gte
    && (is_none c.presence_count_lte
        && (is_none c.presence_count_eq
            && (is_none c.presence_confidence_gte
                && (all (λ b. is_none (c.demographic_gte b)) demographic_fields
                    && (is_none c.demographics_suppressed_eq
                        && (is_none c.attention_engaged_gte
                            && (is_none c.time_hour_gte && is_none c.time_hour_lte)))))))

unfoldable pub numbered : ℕ → List GeneratedRule → List GeneratedRule
numbered idx [] = []
numbered idx (r ∷ rs) = record r { tiebreak_index = some idx } ∷ numbered idx rs

-- `for idx, manifest in enumerate(enabled_manifests)`, from the index `idx` on
unfoldable pub all_rules : ℕ → List Tagged → List GeneratedRule
unfolding numbered
all_rules idx [] = []
all_rules idx (m ∷ ms) = numbered idx (generate_rules_for_manifest m) ++ all_rules (idx + 1) ms

unfoldable pub fallback_target : List Tagged → String
fallback_target [] = "manifest-attract"
fallback_target (m ∷ ms) = m.manifest_id

unfoldable pub safety_fallback : String → GeneratedRule
unfolding made
safety_fallback target = made "autogen-safety-fallback" 0 1_000 target unconditional

unfoldable pub has_fallback : List GeneratedRule → Bool
has_fallback = any (λ r. is_unconditional r.conditions)

-- The value of "rules".
unfoldable pub build_rules : List Tagged → List GeneratedRule
build_rules ms =
    let rules = all_rules 0 ms in
    if has_fallback rules then rules else rules ++ safety_fallback (fallback_target ms) ∷ []

-- As the loader reads the rule from the file: `_tiebreak_index` is a key that it does not know.
unfoldable pub written : GeneratedRule → RawRule
written g = record {
  rule_id = some g.rule_id;
  priority = some g.priority;
  manifest_id = some g.manifest_id;
  weight = some g.weight;
  conditions = g.conditions;
}

unfoldable pub build_rules_file : (min_dwell_ms cooldown_ms : ℕ) → List Tagged → RulesFile
build_rules_file min_dwell_ms cooldown_ms ms = record {
  schema_version = some "1.0.0";
  rules = map written (build_rules ms);
  min_dwell_ms = some min_dwell_ms;
  cooldown_ms = some cooldown_ms;
}
