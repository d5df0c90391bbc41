-- ===== src/Audience/Demographics.antt =====
-- services/audience-state/audience_state/observation_store.py: `compute_demographics`.
pub mod Suppression
use adaptive_advertisement.Common.{
  ℕ, suc, ◌+◌, ◌-◌, ◌*◌, String, Bool, true, false, not, ◌||◌, ◌&&◌, Option, none, some, is_some,
  List, [], ◌∷◌, ◌++◌, map, filter, any, all, sum, length, last?, ltb, leb, if◌then◌else◌,
}
use adaptive_advertisement.Common.Outcome.{Outcome, ok, raised, value_error}
use adaptive_advertisement.Decision.Signal.{
  Bin, child, young_adult, adult, senior, male, female, formal, business_casual, casual, athletic,
  outdoor_technical, workwear_uniform, streetwear, luxury_premium, lounge_comfort, smart_occasion,
  or_false,
}
use adaptive_advertisement.Audience.Numbers.{mean, mean4, present_all, present_only}
use adaptive_advertisement.Audience.Window.{
  Demographics, Stored, ObservationWindow, prune, unless_empty, with_any,
}

abbrev pub Shares : Type 0
Shares = List (Bin × ℕ)

pub data DemographicsBlock : Type 0 where
  suppressed : DemographicsBlock
  shown :
      (age_group : Shares) (gender attire : Option Shares) (dwell_estimate_ms : Option ℕ)
      → DemographicsBlock

-- `obs_with_demog`, and of each its `demographics`
abbrev pub with_demographics : List Stored → List Demographics
with_demographics [] = []
with_demographics (o ∷ obs) = with_any o.data_of.demographics (with_demographics obs)

-- The means of the bins, or none if a bin is absent somewhere.
unfoldable pub bin_means : (scale : ℕ) → List (Bin → Option ℕ) → List Bin → Option Shares
unfolding mean4 present_all
bin_means scale groups [] = some []
bin_means scale groups (b ∷ bs) =
    let rest = bin_means scale groups bs in
    elim (present_all (map (λ (g : Bin → Option ℕ). g b) groups)) [
      | none ↦ none
      | some values ↦ elim rest [
        | none ↦ none
        | some shares ↦ some ((b, mean4 scale values) ∷ shares)
      ]
    ]

-- Groups that every observation carries, or none.
unfoldable pub carried_by_all :
    (Demographics → Option (Bin → Option ℕ)) → List Demographics → Option (List (Bin → Option ℕ))
carried_by_all f [] = some []
carried_by_all f (d ∷ ds) =
    let rest = carried_by_all f ds in
    elim (f d) [ none ↦ none | some g ↦ elim rest [ none ↦ none | some gs ↦ some (g ∷ gs) ] ]

unfoldable pub optional_means :
    (scale : ℕ)
    → (Demographics → Option (Bin → Option ℕ))
    → List Bin
    → List Demographics
    → Option Shares
unfolding bin_means carried_by_all
optional_means scale f bins ds = elim (carried_by_all f ds) [
  | none ↦ none
  | some groups ↦ bin_means scale groups bins
]

abbrev pub age_bins : List Bin
age_bins = child ∷ young_adult ∷ adult ∷ senior ∷ []

abbrev pub gender_bins : List Bin
gender_bins = male ∷ female ∷ []

abbrev pub attire_bins : List Bin
attire_bins =
    formal ∷ business_casual ∷ casual ∷ athletic ∷ outdoor_technical ∷ workwear_uniform ∷ streetwear
    ∷ luxury_premium ∷ lounge_comfort ∷ smart_occasion ∷ []

latest_dwell : List Demographics → Option ℕ
latest_dwell ds = elim (last? ds) [ none ↦ none | some d ↦ d.dwell_estimate_ms ]

block_of : (scale : ℕ) → List Demographics → Option Shares → DemographicsBlock
unfolding optional_means latest_dwell
block_of scale ds none = suppressed
block_of scale ds (some ages) =
    shown ages (optional_means scale (λ d. d.gender) gender_bins ds)
      (optional_means scale (λ d. d.attire) attire_bins ds) (latest_dwell ds)

unfoldable pub demographics_of : ObservationWindow → List Stored → Option DemographicsBlock
unfolding bin_means block_of
demographics_of w obs =
    let ds = with_demographics obs in
    let confs = map (λ (o : Stored). o.data_of.confidence) obs in
    if leb (length ds) 0
    then none
    else if ltb (length ds) (length obs)
    then some suppressed
    else if ltb (sum confs) (w.conf_threshold * length confs)
    then some suppressed
    else some (
        block_of w.scale ds
          (bin_means w.scale (map (λ (d : Demographics). d.age_group) ds) age_bins))

unfoldable pub compute_demographics :
    (now : ℕ) → ObservationWindow → ObservationWindow × Option DemographicsBlock
unfolding prune unless_empty demographics_of
compute_demographics now w =
    let w' = prune now w in (w', unless_empty w'.observations (demographics_of w' w'.observations))
