-- ===== src/Dashboard/Rules.antt =====
-- services/dashboard-api/dashboard_api/rule_generator.py: from the tags of the enabled manifests to the
-- rules file that the decision engine loads.
pub mod Generate
pub mod Built
pub mod Synced
pub mod Gate
pub mod Bounds
pub mod Meeting
pub mod Merging
pub mod Cross
pub mod Hours
use Prim.Native.String
use adaptive_advertisement.Common.{
  ℕ, zero, suc, ◌+◌, ◌/◌, ◌%◌, String, Bool, true, false, not, ◌&&◌, Option, none, some, List, [],
  ◌∷◌, ◌++◌, map, max, ltb, ◌==◌, if◌then◌else◌, any, sum, is_some,
}
use adaptive_advertisement.Decision.Policy.{Conditions, RawRule, RulesFile, demographic_fields}
use adaptive_advertisement.Dashboard.Tags.{
  AudienceTag, TimeTag, OccasionTag, FrequencyTag, freq_primary, Tag, audience, time, occasion,
  frequency, unknown, Dimension, age, gender, attire, audience_name, time_name, dimension,
  attention_gate_threshold, is_gate_excluded, unconditional, present, audience_conditions, Slot,
  Window, unrestricted, one, several, time_window, audience_base_priority, occasion_priority_bonus,
  Reminder, freq_reminder,
}

-- What the generator reads of a manifest's row; NULL tags are none.
pub record Tagged : Type 0 where
  pub manifest_id : String
  pub audience_tags : Option (List Tag)

pub record GeneratedRule : Type 0 where
  pub rule_id : String
  pub priority : ℕ
  pub weight : ℕ
  pub manifest_id : String
  pub conditions : Conditions
  pub tiebreak_index : Option ℕ

infixr 60 ◌⧺◌
abbrev pub ◌⧺◌ : String → String → String
s ⧺ t = String.◌++◌ s t

-- `_inject_attention_gate`
unfoldable pub inject_attention_gate : Conditions → AudienceTag → Conditions
inject_attention_gate c tag =
    if is_gate_excluded tag
    then c
    else record c { attention_engaged_gte = some attention_gate_threshold }

-- A key that both have gets the larger value.
unfoldable pub merge_value : Option ℕ → Option ℕ → Option ℕ
merge_value none b = b
merge_value (some x) none = some x
merge_value (some x) (some y) = some (max x y)

-- `max` on two Booleans, which Python counts among the integers
unfoldable pub merge_flag : Option Bool → Option Bool → Option Bool
merge_flag none b = b
merge_flag (some x) none = some x
merge_flag (some x) (some y) = some (if x then true else y)

-- `_merge_conditions`
unfoldable pub merge_conditions : Conditions → Conditions → Conditions
unfolding merge_flag
merge_conditions a b = record {
  presence_count_gte = merge_value a.presence_count_gte b.presence_count_gte;
  presence_count_lte = merge_value a.presence_count_lte b.presence_count_lte;
  presence_count_eq = merge_value a.presence_count_eq b.presence_count_eq;
  presence_confidence_gte = merge_value a.presence_confidence_gte b.presence_confidence_gte;
  demographic_gte = λ i. merge_value (a.demographic_gte i) (b.demographic_gte i);
  demographics_suppressed_eq = merge_flag a.demographics_suppressed_eq b.demographics_suppressed_eq;
  attention_engaged_gte = merge_value a.attention_engaged_gte b.attention_engaged_gte;
  time_hour_gte = merge_value a.time_hour_gte b.time_hour_gte;
  time_hour_lte = merge_value a.time_hour_lte b.time_hour_lte;
}

-- `cond["time_hour_gte"] = slot[0]` and `cond["time_hour_lte"] = slot[1]`, if there is a slot
unfoldable pub restrict : Option Slot → Conditions → Conditions
restrict none c = c
restrict (some s) c = record c { time_hour_gte = some s.gte; time_hour_lte = some s.lte }

-- `window_slots`
unfoldable pub window_slots : Window → List (Option Slot)
window_slots unrestricted = none ∷ []
window_slots (one s) = some s ∷ []
window_slots (several ss) = map (λ s. some s) ss

digit : ℕ → String
digit n =
    if n == 0
    then "0"
    else if n == 1
    then "1"
    else if n == 2
    then "2"
    else if n == 3
    then "3"
    else if n == 4
    then "4"
    else if n == 5
    then "5"
    else if n == 6
    then "6"
    else if n == 7
    then "7"
    else if n == 8
    then "8"
    else "9"

-- The decimal text of a number with at most `places` digits.
decimal : ℕ → ℕ → String
unfolding digit
decimal zero n = ""
decimal (suc places) n =
    let more = decimal places (n / 10) ⧺ digit (n % 10) in if ltb n 10 then digit n else more

-- `f"-s{slot_idx}" if slot_idx > 0 else ""`. A window has two slots at most.
slot_suffix : ℕ → String
unfolding decimal
slot_suffix idx = if ltb 0 idx then "-s" ⧺ decimal 20 idx else ""

pub made :
    (rule_id : String) (priority weight : ℕ) (manifest_id : String) → Conditions → GeneratedRule
made rule_id priority weight manifest_id c = record {
  rule_id = rule_id;
  priority = priority;
  weight = weight;
  manifest_id = manifest_id;
  conditions = c;
  tiebreak_index = none;
}

-- The rule of an audience tag without a time tag.
unfoldable pub plain_rule : String → ℕ → AudienceTag → GeneratedRule
unfolding made
plain_rule id bonus a =
    made ("autogen-" ⧺ id ⧺ "-" ⧺ audience_name a) (audience_base_priority a + bonus) 1_000 id
      (inject_attention_gate (audience_conditions a) a)

-- The rule of an audience tag in one slot of a time tag.
unfoldable pub timed_rule : String → ℕ → TimeTag → ℕ → Option Slot → AudienceTag → GeneratedRule
unfolding made slot_suffix
timed_rule id bonus t idx slot a =
    made ("autogen-" ⧺ id ⧺ "-" ⧺ time_name t ⧺ slot_suffix idx ⧺ "-" ⧺ audience_name a)
      (audience_base_priority a + 20 + bonus) 1_000 id
      (restrict slot (inject_attention_gate (audience_conditions a) a))

-- The rule of a slot without an audience tag.
unfoldable pub presence_rule : String → ℕ → TimeTag → ℕ → Option Slot → GeneratedRule
unfolding made slot_suffix
presence_rule id bonus t idx slot =
    made ("autogen-" ⧺ id ⧺ "-" ⧺ time_name t ⧺ slot_suffix idx) (11 + bonus) 1_000 id
      (restrict slot (present 1 6_000))

-- What `itertools.combinations(xs, 2)` gives.
unfoldable pub pairs : {A : Type 0} → List A → List (A × A)
pairs [] = []
pairs (x ∷ xs) = map (λ y. (x, y)) xs ++ pairs xs

same_dimension : Dimension → Dimension → Bool
same_dimension age age = true
same_dimension gender gender = true
same_dimension attire attire = true
same_dimension _ _ = false

-- `dimensioned`, with the dimension found again when it is needed
unfoldable pub dimensioned : List AudienceTag → List AudienceTag
dimensioned [] = []
dimensioned (a ∷ tags) =
    let rest = dimensioned tags in if is_some (dimension a) then a ∷ rest else rest

-- `if dim_a == dim_b: continue`
unfoldable pub is_crossed : Option Dimension → Option Dimension → Bool
unfolding same_dimension
is_crossed (some d) (some e) = not (same_dimension d e)
is_crossed _ _ = false

cross_time_part : Option TimeTag → ℕ → String
unfolding slot_suffix
cross_time_part none idx = ""
cross_time_part (some t) idx = "-" ⧺ time_name t ⧺ slot_suffix idx

cross_priority : Option TimeTag → ℕ → ℕ
cross_priority none bonus = 14 + bonus
cross_priority (some t) bonus = 14 + 20 + bonus

unfoldable pub cross_conditions : Option Slot → AudienceTag → AudienceTag → Conditions
cross_conditions slot a b =
    restrict slot (record (merge_conditions (audience_conditions a) (audience_conditions b)) {
      attention_engaged_gte = some attention_gate_threshold;
    })

unfoldable pub cross_rule :
    String → ℕ → Option TimeTag → ℕ → Option Slot → AudienceTag → AudienceTag → GeneratedRule
unfolding made cross_time_part cross_priority
cross_rule id bonus t idx slot a b =
    made ("autogen-" ⧺ id ⧺ cross_time_part t idx ⧺ "-" ⧺ audience_name a ⧺ "+" ⧺ audience_name b)
      (cross_priority t bonus) 1_000 id (cross_conditions slot a b)

unfoldable pub cross_pairs :
    String
    → ℕ
    → Option TimeTag
    → ℕ
    → Option Slot
    → List (AudienceTag × AudienceTag)
    → List GeneratedRule
cross_pairs id bonus t idx slot [] = []
cross_pairs id bonus t idx slot ((a, b) ∷ rest) =
    let later = cross_pairs id bonus t idx slot rest in
    if is_crossed (dimension a) (dimension b)
    then cross_rule id bonus t idx slot a b ∷ later
    else later

-- `_generate_cross_dim_rules`
unfoldable pub generate_cross_dim_rules :
    String → ℕ → Option TimeTag → ℕ → Option Slot → List AudienceTag → List GeneratedRule
unfolding cross_pairs pairs dimensioned
generate_cross_dim_rules id bonus t idx slot tags =
    cross_pairs id bonus t idx slot (pairs (dimensioned tags))
