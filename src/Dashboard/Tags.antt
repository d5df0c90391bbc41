-- ===== src/Dashboard/Tags.antt =====
-- services/dashboard-api/dashboard_api/rule_generator.py: the tags and the tables on them. A fraction
-- is in ten-thousandths, a weight in thousandths. A priority is counted from the -1 of the safety
-- fallback, which is 0 here: the engine only compares priorities.
pub mod Validation
use adaptive_advertisement.Common.{
  ℕ, String, Bool, true, false, Option, none, some, List, [], ◌∷◌, ◌==◌, if◌then◌else◌,
}
use adaptive_advertisement.Decision.Signal.{
  Bin, child, young_adult, adult, senior, male, female, formal, business_casual, casual, athletic,
  outdoor_technical, workwear_uniform, streetwear, luxury_premium, lounge_comfort, smart_occasion,
}
use adaptive_advertisement.Decision.Policy.{Conditions}

-- `AUDIENCE_TAGS`
pub data AudienceTag : Type 0 where
  attract general : AudienceTag
  solo_adult group_adults adult_with_child teenager_group seniors : AudienceTag
  male_focus female_focus : AudienceTag
  attire_formal attire_business_casual attire_casual attire_athletic : AudienceTag
  attire_outdoor_technical attire_workwear_uniform attire_streetwear : AudienceTag
  attire_luxury_premium attire_lounge_comfort attire_smart_occasion : AudienceTag

-- `TIME_TAGS`
pub data TimeTag : Type 0 where
  time_morning time_lunch time_afternoon time_happy_hour : TimeTag
  time_evening time_late_night time_all_day : TimeTag

-- `OCCASION_TAGS`
pub data OccasionTag : Type 0 where
  promo_featured promo_limited_time promo_seasonal : OccasionTag

-- `FREQUENCY_TAGS`
pub data FrequencyTag : Type 0 where
  freq_primary freq_recurring freq_ambient : FrequencyTag

-- A text of a manifest's tag list, by the set that has it.
pub data Tag : Type 0 where
  audience : AudienceTag → Tag
  time : TimeTag → Tag
  occasion : OccasionTag → Tag
  frequency : FrequencyTag → Tag
  unknown : String → Tag

pub data Dimension : Type 0 where
  age gender attire : Dimension

unfoldable pub audience_name : AudienceTag → String
audience_name attract = "attract"
audience_name general = "general"
audience_name solo_adult = "solo_adult"
audience_name group_adults = "group_adults"
audience_name adult_with_child = "adult_with_child"
audience_name teenager_group = "teenager_group"
audience_name seniors = "seniors"
audience_name male_focus = "male_focus"
audience_name female_focus = "female_focus"
audience_name attire_formal = "attire_formal"
audience_name attire_business_casual = "attire_business_casual"
audience_name attire_casual = "attire_casual"
audience_name attire_athletic = "attire_athletic"
audience_name attire_outdoor_technical = "attire_outdoor_technical"
audience_name attire_workwear_uniform = "attire_workwear_uniform"
audience_name attire_streetwear = "attire_streetwear"
audience_name attire_luxury_premium = "attire_luxury_premium"
audience_name attire_lounge_comfort = "attire_lounge_comfort"
audience_name attire_smart_occasion = "attire_smart_occasion"

unfoldable pub time_name : TimeTag → String
time_name time_morning = "time_morning"
time_name time_lunch = "time_lunch"
time_name time_afternoon = "time_afternoon"
time_name time_happy_hour = "time_happy_hour"
time_name time_evening = "time_evening"
time_name time_late_night = "time_late_night"
time_name time_all_day = "time_all_day"

-- `_DIMENSION_GROUPS`
unfoldable pub dimension : AudienceTag → Option Dimension
dimension attract = none
dimension general = none
dimension solo_adult = some age
dimension group_adults = some age
dimension adult_with_child = some age
dimension teenager_group = some age
dimension seniors = some age
dimension male_focus = some gender
dimension female_focus = some gender
dimension _ = some attire

abbrev pub attention_gate_threshold : ℕ
attention_gate_threshold = 3_500

-- `tag in _ATTENTION_GATE_EXCLUDED`
unfoldable pub is_gate_excluded : AudienceTag → Bool
is_gate_excluded attract = true
is_gate_excluded general = true
is_gate_excluded _ = false

-- The empty dict.
abbrev pub unconditional : Conditions
unconditional = record {
  presence_count_gte = none;
  presence_count_lte = none;
  presence_count_eq = none;
  presence_confidence_gte = none;
  demographic_gte = λ b. none;
  demographics_suppressed_eq = none;
  attention_engaged_gte = none;
  time_hour_gte = none;
  time_hour_lte = none;
}

-- `presence_count_gte` and `presence_confidence_gte`
abbrev pub present : ℕ → ℕ → Conditions
present count confidence = record unconditional {
  presence_count_gte = some count;
  presence_confidence_gte = some confidence;
}

unfoldable pub place : Bin → ℕ
place child = 0
place young_adult = 1
place adult = 2
place senior = 3
place male = 4
place female = 5
place formal = 6
place business_casual = 7
place casual = 8
place athletic = 9
place outdoor_technical = 10
place workwear_uniform = 11
place streetwear = 12
place luxury_premium = 13
place lounge_comfort = 14
place smart_occasion = 15

-- The key of one more bin.
unfoldable pub with_share : Bin → ℕ → Conditions → Conditions
unfolding place
with_share bin t c = record c {
  demographic_gte = λ b. if place b == place bin then some t else c.demographic_gte b;
}

-- `_AUDIENCE_CONDITIONS`
unfoldable pub audience_conditions : AudienceTag → Conditions
unfolding with_share place
audience_conditions attract = unconditional
audience_conditions general = present 1 6_000
audience_conditions solo_adult =
    with_share adult 5_000
      (record unconditional { presence_count_eq = some 1; presence_confidence_gte = some 7_000 })
audience_conditions group_adults = with_share adult 5_000 (present 2 7_000)
audience_conditions adult_with_child =
    with_share child 2_000 (with_share adult 3_000 (present 2 7_000))
audience_conditions teenager_group = with_share young_adult 5_000 (present 1 7_000)
audience_conditions seniors = with_share senior 4_000 (present 1 7_000)
audience_conditions male_focus = with_share male 5_500 (present 1 6_000)
audience_conditions female_focus = with_share female 5_500 (present 1 6_000)
audience_conditions attire_formal = with_share formal 4_500 (present 1 6_000)
audience_conditions attire_athletic = with_share athletic 4_500 (present 1 6_000)
audience_conditions attire_outdoor_technical = with_share outdoor_technical 4_500 (present 1 6_000)
audience_conditions attire_workwear_uniform = with_share workwear_uniform 4_500 (present 1 6_000)
audience_conditions attire_business_casual = with_share business_casual 5_000 (present 1 6_000)
audience_conditions attire_streetwear = with_share streetwear 5_000 (present 1 6_000)
audience_conditions attire_casual = with_share casual 5_000 (present 1 6_000)
audience_conditions attire_luxury_premium = with_share luxury_premium 5_500 (present 1 6_000)
audience_conditions attire_smart_occasion = with_share smart_occasion 5_500 (present 1 6_000)
audience_conditions attire_lounge_comfort = with_share lounge_comfort 5_500 (present 1 6_000)

-- Hours from `gte` to `lte`, both included.
pub record Slot : Type 0 where
  pub gte : ℕ
  pub lte : ℕ

pub data Window : Type 0 where
  unrestricted : Window
  one : Slot → Window
  several : List Slot → Window

abbrev hours : ℕ → ℕ → Slot
hours a b = record { gte = a; lte = b }

-- `_TIME_WINDOWS`
unfoldable pub time_window : TimeTag → Window
time_window time_morning = one (hours 6 10)
time_window time_lunch = one (hours 11 13)
time_window time_afternoon = one (hours 14 16)
time_window time_happy_hour = one (hours 16 18)
time_window time_evening = one (hours 18 21)
time_window time_late_night = several (hours 22 23 ∷ hours 0 5 ∷ [])
time_window time_all_day = unrestricted

-- `_AUDIENCE_BASE_PRIORITY`
unfoldable pub audience_base_priority : AudienceTag → ℕ
audience_base_priority attract = 1
audience_base_priority general = 6
audience_base_priority _ = 11

-- `_OCCASION_PRIORITY_BONUS`
unfoldable pub occasion_priority_bonus : OccasionTag → ℕ
occasion_priority_bonus promo_featured = 15
occasion_priority_bonus promo_limited_time = 30
occasion_priority_bonus promo_seasonal = 0

pub record Reminder : Type 0 where
  pub priority : ℕ
  pub weight : ℕ

-- `_FREQ_REMINDER`
unfoldable pub freq_reminder : FrequencyTag → Option Reminder
freq_reminder freq_primary = none
freq_reminder freq_recurring = some (record { priority = 8; weight = 300 })
freq_reminder freq_ambient = some (record { priority = 4; weight = 200 })
