-- ===== src/Dashboard/Tags/Validation.antt =====
-- services/dashboard-api/dashboard_api/schemas.py: `_validate_audience_tags`, and the texts of the tags.
pub mod Accepted
use adaptive_advertisement.Common.{
  ℕ, zero, suc, ◌≡◌, ◌≢◌, ◌↔◌, ◌≤◌, refl, sym, ap, subst, ◌∙◌, String, Bool, true, false, not, ◌&&◌,
  Option, none, some, List, [], ◌∷◌, map, any, all, All, length, ◌==◌, if◌then◌else◌, str_eq,
  eq_iff, Bool-cases, inl, inr, arith,
}
use adaptive_advertisement.Dashboard.Tags.{
  AudienceTag, attract, general, solo_adult, group_adults, adult_with_child, teenager_group,
  seniors, male_focus, female_focus, attire_formal, attire_business_casual, attire_casual,
  attire_athletic, attire_outdoor_technical, attire_workwear_uniform, attire_streetwear,
  attire_luxury_premium, attire_lounge_comfort, attire_smart_occasion, TimeTag, time_morning,
  time_lunch, time_afternoon, time_happy_hour, time_evening, time_late_night, time_all_day,
  OccasionTag, promo_featured, promo_limited_time, promo_seasonal, FrequencyTag, freq_primary,
  freq_recurring, freq_ambient, Tag, audience, time, occasion, frequency, unknown, audience_name,
  time_name,
}

unfoldable pub occasion_name : OccasionTag → String
occasion_name promo_featured = "promo_featured"
occasion_name promo_limited_time = "promo_limited_time"
occasion_name promo_seasonal = "promo_seasonal"

unfoldable pub frequency_name : FrequencyTag → String
frequency_name freq_primary = "freq_primary"
frequency_name freq_recurring = "freq_recurring"
frequency_name freq_ambient = "freq_ambient"

unfoldable pub tag_name : Tag → String
tag_name (audience a) = audience_name a
tag_name (time t) = time_name t
tag_name (occasion o) = occasion_name o
tag_name (frequency f) = frequency_name f
tag_name (unknown s) = s

-- `ALL_VALID_TAGS`
abbrev pub all_valid_tags : List Tag
all_valid_tags =
    audience attract
    ∷ audience general
    ∷ audience solo_adult
    ∷ audience group_adults
    ∷ audience adult_with_child
    ∷ audience teenager_group
    ∷ audience seniors
    ∷ audience male_focus
    ∷ audience female_focus
    ∷ audience attire_formal
    ∷ audience attire_business_casual
    ∷ audience attire_casual
    ∷ audience attire_athletic
    ∷ audience attire_outdoor_technical
    ∷ audience attire_workwear_uniform
    ∷ audience attire_streetwear
    ∷ audience attire_luxury_premium
    ∷ audience attire_lounge_comfort
    ∷ audience attire_smart_occasion
    ∷ time time_morning
    ∷ time time_lunch
    ∷ time time_afternoon
    ∷ time time_happy_hour
    ∷ time time_evening
    ∷ time time_late_night
    ∷ time time_all_day
    ∷ occasion promo_featured
    ∷ occasion promo_limited_time
    ∷ occasion promo_seasonal
    ∷ frequency freq_primary
    ∷ frequency freq_recurring
    ∷ frequency freq_ambient
    ∷ []

find_tag : String → List Tag → Tag
find_tag s [] = unknown s
find_tag s (t ∷ ts) = if str_eq (tag_name t) s then t else find_tag s ts

-- The tag that a text is in the sets of the generator.
unfoldable pub tag_of : String → Tag
unfolding find_tag
tag_of s = find_tag s all_valid_tags

unfoldable pub is_valid : String → Bool
is_valid s = any (λ t. str_eq (tag_name t) s) all_valid_tags

-- `set(tags)`
unfoldable pub distinct : List String → List String
distinct [] = []
distinct (s ∷ ss) = let rest = distinct ss in if any (str_eq s) ss then rest else s ∷ rest

-- None where it raises a ValueError.
unfoldable pub validate_audience_tags : List String → Option (List String)
validate_audience_tags tags =
    if not (all is_valid tags)
    then none
    else if not (length tags == length (distinct tags))
    then none
    else some tags

-- The tag is in one of the sets.
unfoldable pub is_known : Tag → Bool
is_known (unknown s) = false
is_known _ = true

-- No text stands twice in the list.
abbrev pub IsDistinct : List String → Type 0
IsDistinct [] = Unit
IsDistinct (s ∷ ss) = (any (str_eq s) ss ≡ false) × IsDistinct ss
