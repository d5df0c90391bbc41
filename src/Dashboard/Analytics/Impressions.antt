-- ===== src/Dashboard/Analytics/Impressions.antt =====
-- The impressions of a campaign, counted per manifest and together.
use adaptive_advertisement.Common.{
  ℕ, ◌+◌, String, ◌≡◌, refl, false, Bool-cases, List, [], ◌∷◌, any, filter, length, arith, inl, inr,
  str_eq, eq_iff, ap, ◌∙◌,
}
use adaptive_advertisement.Dashboard.Plays.{PlayEvent}
use adaptive_advertisement.Dashboard.Analytics.{
  impressions, is_among, total_of, get_campaign_analytics,
}

-- No manifest is named twice.
abbrev pub IsDistinct : List String → Type 0
IsDistinct [] = Unit
IsDistinct (id ∷ ids) = (any (λ j. str_eq id j) ids ≡ false) × IsDistinct ids

together : List String → List PlayEvent → ℕ
together ids plays = length (filter (is_among ids) plays)

total-cons :
    (plays : List PlayEvent) (id : String) (ids : List String) (acc : ℕ)
    → total_of plays (id ∷ ids) acc ≡ total_of plays ids (acc + impressions plays id)
unfolding total_of
total-cons plays id ids acc = refl

total_from :
    (plays : List PlayEvent) (ids : List String) (acc : ℕ)
    → total_of plays ids acc ≡ acc + total_of plays ids 0
unfolding total_of
total_from plays [] acc = omega arith
total_from plays (id ∷ ids) acc = omega (
  arith,
  total-cons plays id ids acc,
  total-cons plays id ids 0,
  total_from plays ids (acc + impressions plays id),
  total_from plays ids (0 + impressions plays id),
)

-- The events of a new manifest are none of those of the others.
together-cons :
    (id : String) (ids : List String) (plays : List PlayEvent)
    → any (λ j. str_eq id j) ids ≡ false
    → together (id ∷ ids) plays ≡ impressions plays id + together ids plays
unfolding together impressions is_among
together-cons id ids [] new = refl
together-cons id ids (e ∷ plays) new = elim (Bool-cases (str_eq e.manifest_id id)) [
  | inl mine ↦
      let others : any (λ j. str_eq e.manifest_id j) ids ≡ false =
        ap (λ k. any (λ j. str_eq k j) ids) ((eq_iff e.manifest_id id).0 mine) ∙ new in
      ground (arith, together-cons id ids plays new)
  | inr other ↦ ground (arith, together-cons id ids plays new)
]

total_together :
    (plays : List PlayEvent) (ids : List String)
    → IsDistinct ids
    → total_of plays ids 0 ≡ together ids plays
unfolding total_of together is_among
total_together [] [] d = refl
total_together (e ∷ plays) [] d = total_together plays [] d
total_together plays (id ∷ ids) (new, d) = omega (
  arith,
  total-cons plays id ids 0,
  total_from plays ids (0 + impressions plays id),
  total_together plays ids d,
  together-cons id ids plays new,
)

-- The total of a campaign is the number of play events of its manifests, if no manifest is linked
-- twice.
pub total_impressions_lem :
    (scale : ℕ) (ids : List String) (plays : List PlayEvent)
    → IsDistinct ids
    → (get_campaign_analytics scale ids plays).total_impressions
      ≡ length (filter (is_among ids) plays)
unfolding get_campaign_analytics together
total_impressions_lem scale ids plays d = total_together plays ids d
