-- ===== src/Audience/Demographics/Suppression.antt =====
-- When demographics leave the window.
use adaptive_advertisement.Common.{
  ℕ, ◌*◌, ◌≤◌, ◌≡◌, ap, inl, inr, true, Bool-cases, Option, none, some, is_some, Option-cases,
  length-map, List, [], ◌∷◌, arith, leb, ltb, length, map, sum, All,
}
use mathlib.Core.Option.{some-injective}
use adaptive_advertisement.Audience.Window.{
  ObservationWindow, Stored, Demographics, unless_empty, prune,
}
use adaptive_advertisement.Audience.Demographics.{
  Shares, DemographicsBlock, suppressed, shown, with_demographics, bin_means, age_bins, block_of,
  demographics_of, compute_demographics,
}

abbrev HasDemographics : Stored → Type 0
HasDemographics o = is_some o.data_of.demographics ≡ true

length_with_le : (obs : List Stored) → length (with_demographics obs) ≤ length obs
length_with_le [] = omega arith
length_with_le (o ∷ obs) = elim (Option-cases o.data_of.demographics) [
  | inl e ↦ rw e (omega (arith, length_with_le obs))
  | inr (d, e) ↦ rw e (omega (arith, length_with_le obs))
]

-- If no observation is lost by keeping those with demographics, each has them.
with_demographics-All :
    (obs : List Stored) → length obs ≤ length (with_demographics obs) → All HasDemographics obs
with_demographics-All [] h = tt
with_demographics-All (o ∷ obs) h = elim (Option-cases o.data_of.demographics) [
  | inl e ↦ absurd (omega (arith, length_with_le obs, rw e at h))
  | inr (d, e) ↦ (ap is_some e, with_demographics-All obs (omega (arith, rw e at h)))
]

abbrev ages_of : DemographicsBlock → Option Shares
ages_of suppressed = none
ages_of (shown ages gender attire dwell) = some ages

-- A demographics block with shares: what must hold of the observations it is made of.
pub record IsShown (w : ObservationWindow) (obs : List Stored) (ages : Shares) : Type 0 where
  pub everywhere : All HasDemographics obs
  pub confident :
      w.conf_threshold * length obs ≤ sum (map (λ (o : Stored). o.data_of.confidence) obs)
  pub means :
      bin_means w.scale (map (λ (d : Demographics). d.age_group) (with_demographics obs)) age_bins
      ≡ some ages

shown_ages :
    (scale : ℕ) (ds : List Demographics) (o : Option Shares) (ages : Shares)
    (gender attire : Option Shares) (dwell : Option ℕ)
    → block_of scale ds o ≡ shown ages gender attire dwell
    → o ≡ some ages
unfolding block_of
shown_ages scale ds none ages gender attire dwell h = ground (arith, h)
shown_ages scale ds (some a) ages gender attire dwell h = ap ages_of h

shown-IsShown :
    (w : ObservationWindow) (obs : List Stored) (ages : Shares) (gender attire : Option Shares)
    (dwell : Option ℕ)
    → demographics_of w obs ≡ some (shown ages gender attire dwell)
    → IsShown w obs ages
unfolding demographics_of
shown-IsShown w obs ages gender attire dwell h =
    let ds = with_demographics obs in
    let confs = map (λ (o : Stored). o.data_of.confidence) obs in
    elim (Bool-cases (leb (length ds) 0)) [
      | inl nobody ↦ absurd (ground (arith, rw nobody at h))
      | inr somebody ↦ elim (Bool-cases (ltb (length ds) (length obs))) [
        | inl some_lack ↦ absurd (ground (arith, rw (somebody, some_lack) at h))
        | inr all_have ↦ elim (Bool-cases (ltb (sum confs) (w.conf_threshold * length confs))) [
          | inl low ↦ absurd (ground (arith, rw (somebody, all_have, low) at h))
          | inr high ↦ record {
            everywhere = with_demographics-All obs (ground (arith, all_have));
            confident = ground (arith, high, length-map (λ (o : Stored). o.data_of.confidence) obs);
            means =
                shown_ages w.scale ds _ ages gender attire dwell
                  (some-injective _ _ (rw (somebody, all_have, high) at h));
          }
        ]
      ]
    ]

given :
    (obs : List Stored) (o : Option DemographicsBlock) (b : DemographicsBlock)
    → unless_empty obs o ≡ some b
    → o ≡ some b
unfolding unless_empty
given [] o b h = ground (arith, h)
given (x ∷ obs) o b h = h

-- Shares of ages leave the window only if every observation that is still recent carries
-- demographics, their mean confidence reaches the threshold, and every age bin is there in each of
-- them; the shares are the rounded means. In any other case the block is `suppressed` or left out.
pub shown_only_if :
    (now : ℕ) (w : ObservationWindow) (ages : Shares) (gender attire : Option Shares)
    (dwell : Option ℕ)
    → (compute_demographics now w).1 ≡ some (shown ages gender attire dwell)
    → IsShown (prune now w) (prune now w).observations ages
unfolding compute_demographics
shown_only_if now w ages gender attire dwell h =
    shown-IsShown (prune now w) (prune now w).observations ages gender attire dwell
      (given (prune now w).observations _ _ h)
