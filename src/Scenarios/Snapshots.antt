-- ===== src/Scenarios/Snapshots.antt =====
-- A message that says that its demographics are suppressed, and has values.
use adaptive_advertisement.Common.{◌≡◌, true, false, none, some, List, [], ◌∷◌, map}
use adaptive_advertisement.Dashboard.Snapshots.{Message, Delivery, AudienceSnapshot}
use adaptive_advertisement.Dashboard.Analytics.{get_analytics_summary}
use adaptive_advertisement.Dashboard.Analytics.Suppression.{rewritten, summary_hides_suppressed}

abbrev leaky : Message
leaky = record {
  privacy = none;
  state = some (record {
    presence = some (record { count = 3; confidence = 9_000 });
    state_stable = some true;
    demographics = some (record { suppressed = some true; bins = λ b. some 5_000 });
    attention = none;
  });
  pipeline_degraded = some false;
  produced_at = some "2026-01-01T00:00:00Z";
}

abbrev deliveries : List Delivery
deliveries =
    record { payload = some leaky; db_ok = true } ∷ record { payload = none; db_ok = true } ∷ []

abbrev row : AudienceSnapshot
row = record {
  sampled_at = 7;
  presence_count = 3;
  presence_confidence = 9_000;
  state_stable = true;
  pipeline_degraded = false;
  demographics_suppressed = true;
  bins = λ b. none;
  attention_engaged = some 4_000;
}

summary_hides_suppressed_example :
    get_analytics_summary 1 60_000 (map (rewritten (λ s b. some 5_000)) (row ∷ []))
    ≡ get_analytics_summary 1 60_000 (row ∷ [])
summary_hides_suppressed_example = summary_hides_suppressed 1 60_000 (λ s b. some 5_000) (row ∷ [])
