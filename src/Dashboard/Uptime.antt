-- ===== src/Dashboard/Uptime.antt =====
-- services/dashboard-api/dashboard_api/uptime_sink.py and `get_uptime_summary` of
-- routers/analytics.py. Times are in ms, percentages in hundredths.
pub mod Target
use adaptive_advertisement.Common.{
  ℕ, ◌+◌, ◌*◌, Bool, true, false, Option, none, some, List, [], ◌∷◌, ◌++◌, leb, ◌==◌, length,
  filter, if◌then◌else◌,
}
use adaptive_advertisement.Audience.Numbers.{round_div}

pub data PlayerStatus : Type 0 where
  healthy unhealthy unreachable : PlayerStatus

pub data OverallStatus : Type 0 where
  healthy degraded critical : OverallStatus

-- What a probe meets: an HTTP status, or a client error or a timeout.
pub data Answer : Type 0 where
  status : ℕ → Answer
  failed : Answer

pub record UptimeEvent : Type 0 where
  pub sampled_at : ℕ
  pub player_status : PlayerStatus
  pub overall_status : OverallStatus

unfoldable pub probe_event : (now : ℕ) → Answer → UptimeEvent
probe_event now (status code) =
    if code == 200
    then record { sampled_at = now; player_status = healthy; overall_status = healthy }
    else record { sampled_at = now; player_status = unhealthy; overall_status = degraded }
probe_event now failed = record {
  sampled_at = now;
  player_status = unreachable;
  overall_status = critical;
}

-- One round of `run_uptime_sink`.
unfoldable pub sample : (now : ℕ) (db_ok : Bool) → Answer → List UptimeEvent → List UptimeEvent
sample now db_ok a table = if db_ok then table ++ probe_event now a ∷ [] else table

unfoldable pub is_healthy : PlayerStatus → Bool
is_healthy healthy = true
is_healthy _ = false

-- `_SLO_TARGET_PCT`
abbrev pub slo_target_pct : ℕ
slo_target_pct = 9_950

pub record UptimeSummaryOut : Type 0 where
  pub total_probes : ℕ
  pub healthy_probes : ℕ
  pub uptime_pct : Option ℕ
  pub slo_met : Option Bool

abbrev pub count_healthy : List UptimeEvent → ℕ
count_healthy rows = length (filter (λ (r : UptimeEvent). is_healthy r.player_status) rows)

-- `round(healthy / len(rows) * 100, 2)`
unfoldable pub uptime_pct : List UptimeEvent → ℕ
uptime_pct rows = round_div (10_000 * count_healthy rows) (length rows)

summary_of : List UptimeEvent → UptimeSummaryOut
summary_of [] = record { total_probes = 0; healthy_probes = 0; uptime_pct = none; slo_met = none }
summary_of (r ∷ rs) = record {
  total_probes = length (r ∷ rs);
  healthy_probes = count_healthy (r ∷ rs);
  uptime_pct = some (uptime_pct (r ∷ rs));
  slo_met = some (leb slo_target_pct (uptime_pct (r ∷ rs)));
}

-- The rows of the last `hours` hours.
unfoldable pub window : (hours now : ℕ) → List UptimeEvent → List UptimeEvent
window hours now table =
    filter (λ (r : UptimeEvent). leb now (r.sampled_at + 3_600_000 * hours)) table

unfoldable pub get_uptime_summary : (hours now : ℕ) → List UptimeEvent → UptimeSummaryOut
unfolding summary_of
get_uptime_summary hours now table = summary_of (window hours now table)
