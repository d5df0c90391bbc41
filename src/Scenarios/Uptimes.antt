-- ===== src/Scenarios/Uptimes.antt =====
-- Probes of the player.
use adaptive_advertisement.Common.{◌*◌, ◌≤◌, ◌≡◌, ◌↔◌, true, some, List, [], ◌∷◌, length, arith}
use adaptive_advertisement.Dashboard.Uptime.{
  UptimeEvent, status, failed, probe_event, count_healthy, window, get_uptime_summary,
}
use adaptive_advertisement.Dashboard.Uptime.Target.{slo_met_iff}

abbrev probes : List UptimeEvent
probes = probe_event 60_000 (status 200) ∷ probe_event 120_000 failed ∷ []

slo_met_iff_example : ((get_uptime_summary 24 130_000 probes).slo_met ≡ some true) ↔ (
    19_899 * length (window 24 130_000 probes) ≤ 20_000 * count_healthy (window 24 130_000 probes))
unfolding window probe_event
slo_met_iff_example = slo_met_iff 24 130_000 probes (omega arith)
