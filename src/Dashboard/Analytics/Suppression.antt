-- ===== src/Dashboard/Analytics/Suppression.antt =====
-- The audience summary tells nothing of suppressed demographics.
use adaptive_advertisement.Common.{
  ℕ, ◌+◌, ◌≡◌, refl, ap, ◌∙◌, Bool, true, false, Bool-cases, Option, List, [], ◌∷◌, map, leb,
  filter, inl, inr, length-map,
}
use adaptive_advertisement.Decision.Signal.{Bin}
use adaptive_advertisement.Dashboard.Snapshots.{AudienceSnapshot}
use adaptive_advertisement.Dashboard.Analytics.{
  hour_ms, demographic_rows, summary_of, get_analytics_summary,
}

with_bins : Bool → (Bin → Option ℕ) → AudienceSnapshot → AudienceSnapshot
with_bins true bins s = record s { bins = bins }
with_bins false bins s = s

-- A row with other values in the bins, if its demographics are suppressed.
unfoldable pub rewritten : (AudienceSnapshot → Bin → Option ℕ) → AudienceSnapshot → AudienceSnapshot
unfolding with_bins
rewritten bins s = with_bins s.demographics_suppressed (bins s) s

map_same :
    {B : Type 0} (f : AudienceSnapshot → B) (g : AudienceSnapshot → AudienceSnapshot)
    (rows : List AudienceSnapshot)
    → ((s : AudienceSnapshot) → f (g s) ≡ f s)
    → map f (map g rows) ≡ map f rows
map_same f g [] h = refl
map_same f g (r ∷ rs) h = rw (h r, map_same f g rs h)

filter-map :
    (p : AudienceSnapshot → Bool) (g : AudienceSnapshot → AudienceSnapshot)
    (rows : List AudienceSnapshot)
    → ((s : AudienceSnapshot) → p (g s) ≡ p s)
    → filter p (map g rows) ≡ map g (filter p rows)
filter-map p g [] h = refl
filter-map p g (r ∷ rs) h = elim (Bool-cases (p r)) [
  | inl good ↦ rw (h r ∙ good, good, filter-map p g rs h)
  | inr bad ↦ rw (h r ∙ bad, bad, filter-map p g rs h)
]

with_bins-count :
    (t : Bool) (b : Bin → Option ℕ) (s : AudienceSnapshot)
    → (with_bins t b s).presence_count ≡ s.presence_count
unfolding with_bins
with_bins-count true b s = refl
with_bins-count false b s = refl

with_bins-engaged :
    (t : Bool) (b : Bin → Option ℕ) (s : AudienceSnapshot)
    → (with_bins t b s).attention_engaged ≡ s.attention_engaged
unfolding with_bins
with_bins-engaged true b s = refl
with_bins-engaged false b s = refl

with_bins-sampled :
    (t : Bool) (b : Bin → Option ℕ) (s : AudienceSnapshot)
    → (with_bins t b s).sampled_at ≡ s.sampled_at
unfolding with_bins
with_bins-sampled true b s = refl
with_bins-sampled false b s = refl

-- One row in front of the rows that the distribution reads.
shown_first :
    (t : Bool) (b : Bin → Option ℕ) (s : AudienceSnapshot) (xs ys : List AudienceSnapshot)
    → s.demographics_suppressed ≡ t
    → demographic_rows xs ≡ demographic_rows ys
    → demographic_rows (with_bins t b s ∷ xs) ≡ demographic_rows (s ∷ ys)
unfolding with_bins demographic_rows
shown_first true b s xs ys e h = rw e h
shown_first false b s xs ys e h = simp (e, h)

demographic_rows-rewritten :
    (bins : AudienceSnapshot → Bin → Option ℕ) (rows : List AudienceSnapshot)
    → demographic_rows (map (rewritten bins) rows) ≡ demographic_rows rows
unfolding rewritten
demographic_rows-rewritten bins [] = refl
demographic_rows-rewritten bins (r ∷ rs) =
    shown_first r.demographics_suppressed (bins r) r (map (rewritten bins) rs) rs refl
      (demographic_rows-rewritten bins rs)

module _ (bins : AudienceSnapshot → Bin → Option ℕ) where
  count_kept : (s : AudienceSnapshot) → (rewritten bins s).presence_count ≡ s.presence_count
  unfolding rewritten
  count_kept s = with_bins-count s.demographics_suppressed (bins s) s

  engaged_kept : (s : AudienceSnapshot) → (rewritten bins s).attention_engaged ≡ s.attention_engaged
  unfolding rewritten
  engaged_kept s = with_bins-engaged s.demographics_suppressed (bins s) s

  sampled_kept : (s : AudienceSnapshot) → (rewritten bins s).sampled_at ≡ s.sampled_at
  unfolding rewritten
  sampled_kept s = with_bins-sampled s.demographics_suppressed (bins s) s

  summary_of-rewritten :
      (scale : ℕ) (rows : List AudienceSnapshot)
      → summary_of scale (map (rewritten bins) rows) ≡ summary_of scale rows
  unfolding summary_of
  summary_of-rewritten scale [] = refl
  summary_of-rewritten scale (r ∷ rs) = rw (
    demographic_rows-rewritten bins (r ∷ rs),
    count_kept r,
    engaged_kept r,
    map_same (λ s. s.presence_count) (rewritten bins) rs count_kept,
    map_same (λ s. s.attention_engaged) (rewritten bins) rs engaged_kept,
    length-map (rewritten bins) rs,
  )

-- The summary is the same whatever values the suppressed rows have in their bins.
pub summary_hides_suppressed :
    (scale now : ℕ) (bins : AudienceSnapshot → Bin → Option ℕ) (table : List AudienceSnapshot)
    → get_analytics_summary scale now (map (rewritten bins) table)
      ≡ get_analytics_summary scale now table
unfolding get_analytics_summary
summary_hides_suppressed scale now bins table =
    rw
      (filter-map (λ s. leb now (s.sampled_at + hour_ms)) (rewritten bins) table
        (λ s. ap (λ t. leb now (t + hour_ms)) (sampled_kept bins s)))
      (summary_of-rewritten bins scale _)
