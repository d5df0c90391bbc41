-- ===== src/Dashboard/Analytics.antt =====
-- services/dashboard-api/dashboard_api/routers/analytics.py: aggregates over the tables of the sinks.
-- A count is given in hundredths and a fraction in its own unit, of which `scale` make 0.0001.
pub mod Suppression
pub mod Impressions
use adaptive_advertisement.Common.{
  ℕ, zero, suc, ◌+◌, ◌*◌, ◌/◌, ◌≤◌, String, Bool, true, false, not, ◌||◌, Option, none, some, List,
  [], ◌∷◌, map, max, min, leb, ltb, length, sum, filter, any, if◌then◌else◌, str_eq,
}
use adaptive_advertisement.Audience.Numbers.{round_div, mean4, present_only}
use adaptive_advertisement.Decision.Signal.{Bin, child, young_adult, adult, senior}
use adaptive_advertisement.Decision.Policy.{is_empty}
use adaptive_advertisement.Dashboard.Snapshots.{AudienceSnapshot}
use adaptive_advertisement.Dashboard.Plays.{PlayEvent}

-- The sum of a bin over the rows, and their number: the source divides.
pub record Share : Type 0 where
  pub total : ℕ
  pub rows : ℕ

pub record AgeDistribution : Type 0 where
  pub child : Share
  pub young_adult : Share
  pub adult : Share
  pub senior : Share

pub record AnalyticsSummaryOut : Type 0 where
  pub total_observations : ℕ
  pub avg_count_per_window : Option ℕ
  pub peak_count : Option ℕ
  pub age_distribution : Option AgeDistribution
  pub avg_attention_engaged : Option ℕ
  pub data_available : Bool

-- `r.age_group_… or 0.0`
bin_value : Bin → AudienceSnapshot → ℕ
bin_value b s = elim (s.bins b) [ none ↦ 0 | some v ↦ v ]

share_of : Bin → List AudienceSnapshot → Share
unfolding bin_value
share_of b rows = record { total = sum (map (bin_value b) rows); rows = length rows }

is_shown : List AudienceSnapshot → Bool
unfolding bin_value
is_shown rows =
    any (λ b. ltb 0 (sum (map (bin_value b) rows))) (child ∷ young_adult ∷ adult ∷ senior ∷ [])

unfoldable pub age_distribution : List AudienceSnapshot → Option AgeDistribution
unfolding share_of is_shown
age_distribution [] = none
age_distribution (r ∷ rs) =
    if is_shown (r ∷ rs)
    then some (record {
      child = share_of Bin.child (r ∷ rs);
      young_adult = share_of Bin.young_adult (r ∷ rs);
      adult = share_of Bin.adult (r ∷ rs);
      senior = share_of Bin.senior (r ∷ rs);
    })
    else none

maximum : List ℕ → ℕ
maximum [] = 0
maximum (x ∷ xs) = max x (maximum xs)

avg_attention : (scale : ℕ) → List ℕ → Option ℕ
avg_attention scale [] = none
avg_attention scale (v ∷ vs) = some (mean4 scale (v ∷ vs))

abbrev pub hour_ms : ℕ
hour_ms = 3_600_000

-- `demo_rows`
unfoldable pub demographic_rows : List AudienceSnapshot → List AudienceSnapshot
demographic_rows rows = filter (λ (r : AudienceSnapshot). not r.demographics_suppressed) rows

summary_of : (scale : ℕ) → List AudienceSnapshot → AnalyticsSummaryOut
unfolding maximum avg_attention
summary_of scale [] = record {
  total_observations = 0;
  avg_count_per_window = none;
  peak_count = none;
  age_distribution = none;
  avg_attention_engaged = none;
  data_available = false;
}
summary_of scale (r ∷ rs) =
    let counts = map (λ (s : AudienceSnapshot). s.presence_count) (r ∷ rs) in
    record {
      total_observations = length (r ∷ rs);
      avg_count_per_window = some (round_div (100 * sum counts) (length counts));
      peak_count = some (maximum counts);
      age_distribution = age_distribution (demographic_rows (r ∷ rs));
      avg_attention_engaged =
          avg_attention scale
            (present_only (map (λ (s : AudienceSnapshot). s.attention_engaged) (r ∷ rs)));
      data_available = true;
    }

-- `get_analytics_summary`
unfoldable pub get_analytics_summary : (scale now : ℕ) → List AudienceSnapshot → AnalyticsSummaryOut
unfolding summary_of
get_analytics_summary scale now table =
    summary_of scale (filter (λ (s : AudienceSnapshot). leb now (s.sampled_at + hour_ms)) table)

-- The impressions of one manifest.
unfoldable pub impressions : List PlayEvent → String → ℕ
impressions plays id = length (filter (λ (e : PlayEvent). str_eq e.manifest_id id) plays)

pub record Breakdown : Type 0 where
  pub manifest_id : String
  pub impressions : ℕ

breakdown_of : List PlayEvent → List String → List Breakdown
breakdown_of plays [] = []
breakdown_of plays (id ∷ ids) =
    record { manifest_id = id; impressions = impressions plays id } ∷ breakdown_of plays ids

-- `PlayEvent.manifest_id.in_(manifest_ids)`
unfoldable pub is_among : List String → PlayEvent → Bool
is_among ids e = any (λ id. str_eq e.manifest_id id) ids

earliest : List ℕ → Option ℕ
earliest [] = none
earliest (t ∷ ts) = elim (earliest ts) [ none ↦ some t | some u ↦ some (min t u) ]

latest : List ℕ → Option ℕ
latest [] = none
latest (t ∷ ts) = elim (latest ts) [ none ↦ some t | some u ↦ some (max t u) ]

pub record CampaignAnalyticsOut : Type 0 where
  pub total_impressions : ℕ
  pub manifest_breakdown : List Breakdown
  pub window_start : Option ℕ
  pub window_end : Option ℕ
  pub avg_attention_at_trigger : Option ℕ

-- The loop over the manifests, with the running total.
total_of : List PlayEvent → List String → ℕ → ℕ
total_of plays [] acc = acc
total_of plays (id ∷ ids) acc = total_of plays ids (acc + impressions plays id)

-- `get_campaign_analytics` of a campaign that exists, with the manifests of its links
unfoldable pub get_campaign_analytics :
    (scale : ℕ) → List String → List PlayEvent → CampaignAnalyticsOut
unfolding breakdown_of earliest latest total_of avg_attention
get_campaign_analytics scale ids plays =
    let total = total_of plays ids 0 in
    let among = filter (is_among ids) plays in
    let times = map (λ (e : PlayEvent). e.activated_at) among in
    record {
      total_impressions = total;
      manifest_breakdown = breakdown_of plays ids;
      window_start = if ltb 0 total then earliest times else none;
      window_end = if ltb 0 total then latest times else none;
      avg_attention_at_trigger =
          if ltb 0 total
          then avg_attention scale
              (present_only (map (λ (e : PlayEvent). e.attention_at_trigger) among))
          else none;
    }
