-- ===== src/Dashboard/Tags/Validation/Accepted.antt =====
-- Which tags of a request are accepted.
use adaptive_advertisement.Common.{
  ◌≡◌, ◌↔◌, ◌≤◌, refl, sym, ap, subst, ◌∙◌, String, Bool, true, false, ◌&&◌, some, List, [], ◌∷◌,
  map, any, all, All, length, ◌==◌, str_eq, eq_iff, Bool-cases, inl, inr, arith,
}
use adaptive_advertisement.Dashboard.Tags.{
  attract, general, solo_adult, group_adults, adult_with_child, teenager_group, seniors, male_focus,
  female_focus, attire_formal, attire_business_casual, attire_casual, attire_athletic,
  attire_outdoor_technical, attire_workwear_uniform, attire_streetwear, attire_luxury_premium,
  attire_lounge_comfort, attire_smart_occasion, time_morning, time_lunch, time_afternoon,
  time_happy_hour, time_evening, time_late_night, time_all_day, promo_featured, promo_limited_time,
  promo_seasonal, freq_primary, freq_recurring, freq_ambient, Tag, audience, time, occasion,
  frequency, unknown, audience_name, time_name,
}
use adaptive_advertisement.Dashboard.Tags.Validation.{
  occasion_name, frequency_name, tag_name, all_valid_tags, find_tag, tag_of, is_valid, distinct,
  validate_audience_tags, is_known, IsDistinct,
}

known : (t : Tag) → is_known t ≡ true → tag_of (tag_name t) ≡ t
unfolding is_known tag_of find_tag tag_name audience_name time_name occasion_name frequency_name
known (audience attract) h = refl
known (audience general) h = refl
known (audience solo_adult) h = refl
known (audience group_adults) h = refl
known (audience adult_with_child) h = refl
known (audience teenager_group) h = refl
known (audience seniors) h = refl
known (audience male_focus) h = refl
known (audience female_focus) h = refl
known (audience attire_formal) h = refl
known (audience attire_business_casual) h = refl
known (audience attire_casual) h = refl
known (audience attire_athletic) h = refl
known (audience attire_outdoor_technical) h = refl
known (audience attire_workwear_uniform) h = refl
known (audience attire_streetwear) h = refl
known (audience attire_luxury_premium) h = refl
known (audience attire_lounge_comfort) h = refl
known (audience attire_smart_occasion) h = refl
known (time time_morning) h = refl
known (time time_lunch) h = refl
known (time time_afternoon) h = refl
known (time time_happy_hour) h = refl
known (time time_evening) h = refl
known (time time_late_night) h = refl
known (time time_all_day) h = refl
known (occasion promo_featured) h = refl
known (occasion promo_limited_time) h = refl
known (occasion promo_seasonal) h = refl
known (frequency freq_primary) h = refl
known (frequency freq_recurring) h = refl
known (frequency freq_ambient) h = refl
known (unknown s) h = absurd (cc)

-- What the search finds.
find_known :
    (s : String) (ts : List Tag)
    → All (λ t. is_known t ≡ true) ts
    → any (λ t. str_eq (tag_name t) s) ts ≡ true
    → (is_known (find_tag s ts) ≡ true) × (tag_name (find_tag s ts) ≡ s)
unfolding find_tag
find_known s [] k h = absurd (cc)
find_known s (t ∷ ts) k h = elim (Bool-cases (str_eq (tag_name t) s)) [
  | inl same ↦ rw same (k.0, (eq_iff (tag_name t) s).0 same)
  | inr other ↦ rw other (find_known s ts k.1 (rw other at h))
]

find_unknown :
    (s : String) (ts : List Tag)
    → any (λ t. str_eq (tag_name t) s) ts ≡ false
    → find_tag s ts ≡ unknown s
unfolding find_tag
find_unknown s [] h = refl
find_unknown s (t ∷ ts) h = elim (Bool-cases (str_eq (tag_name t) s)) [
  | inl same ↦ absurd (cc (rw same at h))
  | inr other ↦ rw other (find_unknown s ts (rw other at h))
]

all_iff {ℓ} :
    {A : Type ℓ} (p : A → Bool) (xs : List A) → (all p xs ≡ true) ↔ All (λ x. p x ≡ true) xs
all_iff p [] = (λ h. tt, λ h. refl)
all_iff p (x ∷ xs) =
    let rest = all_iff p xs in
    (λ h. let (a, b) = both (p x) (all p xs) h in (a, rest.0 b), λ h. rw h.0 (rest.1 h.1))
  where
    both : (a b : Bool) → a && b ≡ true → (a ≡ true) × (b ≡ true)
    both true b h = (refl, h)
    both false b h = absurd (cc)

valid_tags-known : All (λ t. is_known t ≡ true) all_valid_tags
unfolding is_known
valid_tags-known = (all_iff is_known all_valid_tags).0 refl

valid_of_known : (t : Tag) → is_known t ≡ true → is_valid (tag_name t) ≡ true
unfolding is_valid tag_of is_known
valid_of_known t h = elim (Bool-cases (is_valid (tag_name t))) [
  | inl good ↦ good
  | inr bad ↦
      let e : t ≡ unknown (tag_name t) =
        sym (known t h) ∙ find_unknown (tag_name t) all_valid_tags bad in
      absurd (cc (ap is_known e))
]

length-distinct : (ss : List String) → length (distinct ss) ≤ length ss
unfolding distinct
length-distinct [] = omega arith
length-distinct (s ∷ ss) = ground (arith, length-distinct ss)

distinct_iff : (ss : List String) → ((length ss == length (distinct ss)) ≡ true) ↔ IsDistinct ss
unfolding distinct
distinct_iff [] = (λ h. tt, λ h. refl)
distinct_iff (s ∷ ss) =
    let few = length-distinct ss in
    let rest = distinct_iff ss in
    elim (Bool-cases (any (str_eq s) ss)) [
      | inl twice ↦ rw twice (λ h. absurd (ground (arith, few)), λ h. absurd (cc h.0))
      | inr once ↦
          rw once (λ h. (refl, rest.0 (ground arith)), λ h. let e = rest.1 h.1 in ground (arith, e))
    ]

names-known :
    (ts : List Tag)
    → All (λ t. is_known t ≡ true) ts
    → All (λ s. is_valid s ≡ true) (map tag_name ts)
names-known [] h = tt
names-known (t ∷ ts) h = (valid_of_known t h.0, names-known ts h.1)

read_back : (ts : List Tag) → All (λ t. is_known t ≡ true) ts → map tag_of (map tag_name ts) ≡ ts
read_back [] h = refl
read_back (t ∷ ts) h = rw (known t h.0, read_back ts h.1) refl

names_found :
    (ss : List String)
    → All (λ s. is_valid s ≡ true) ss
    → All (λ t. is_known t ≡ true) (map tag_of ss) × (map tag_name (map tag_of ss) ≡ ss)
unfolding is_valid tag_of
names_found [] h = (tt, refl)
names_found (s ∷ ss) h =
    let here = find_known s all_valid_tags valid_tags-known h.0 in
    let rest = names_found ss h.1 in ((here.0, rest.0), rw (here.1, rest.1) refl)

validate-cases :
    (tags : List String)
    → (validate_audience_tags tags ≡ some tags)
      ↔ ((all is_valid tags ≡ true) × ((length tags == length (distinct tags)) ≡ true))
unfolding validate_audience_tags
validate-cases tags = ground arith

-- The tags of a request are accepted exactly if they are the texts of known tags and none stands twice;
-- and the generator finds each known tag again by its text.
pub validate_iff :
    (tags : List String)
    → ((validate_audience_tags tags ≡ some tags) ↔ (
        (ts : List Tag) × All (λ t. is_known t ≡ true) ts
        × (map tag_name ts ≡ tags)
        × IsDistinct tags))
      × ((ts : List Tag) → All (λ t. is_known t ≡ true) ts → map tag_of (map tag_name ts) ≡ ts)
validate_iff tags =
    let cases = validate-cases tags in
    let once = distinct_iff tags in
    (
      (
        λ h.
            let (valid, single) = cases.0 h in
            let (k, e) = names_found tags ((all_iff is_valid tags).0 valid) in
            (map tag_of tags, k, e, once.0 single),
        λ (ts, k, e, d). cases.1 (
          (all_iff is_valid tags).1
              (subst (λ ss. All (λ s. is_valid s ≡ true) ss) e (names-known ts k)),
          once.1 d,
        ),
      ),
      read_back,
    )
