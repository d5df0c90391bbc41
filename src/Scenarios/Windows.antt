-- ===== src/Scenarios/Windows.antt =====
-- Runs of the observation window and of what is built on it.
use adaptive_advertisement.Common.{
  ℕ, ◌≡◌, arith, String, Bool, false, Option, none, some, List, [], ◌∷◌, filter,
}
use adaptive_advertisement.Decision.Signal.{Bin, child, young_adult, adult, senior}
use adaptive_advertisement.Audience.Window.{
  Observation, Stored, ObservationWindow, is_recent, prune,
}
use adaptive_advertisement.Audience.Window.Recent.{add_all, window_exact}

ages : Bin → Option ℕ
ages child = some 1_000
ages young_adult = some 2_000
ages adult = some 3_000
ages senior = some 4_000
ages _ = none

abbrev seen : (id : String) → (count : ℕ) → (degraded : Bool) → Observation
seen id count degraded = record {
  message_id = id;
  present = count;
  confidence = 8_000;
  pipeline_degraded = some degraded;
  demographics =
      some
        (record { age_group = ages; gender = none; attire = none; dwell_estimate_ms = some 1_500 });
  attention = none;
}

abbrev window : List Stored → ObservationWindow
window stored = record {
  window_ms = 5_000;
  min_stability = 2;
  conf_threshold = 5_000;
  scale = 1;
  observations = stored;
  total_added = 0;
}

abbrev stored : ℕ → Observation → Stored
stored t o = record { data_of = o; received_at = t }

window_exact_example :
    (prune 9_000 (
      add_all
        (window [])
        ((1_000, seen "a" 3 false) ∷ (7_000, seen "b" 4 false) ∷ []))).observations
    ≡ filter
        (is_recent 5_000 9_000)
        (stored 1_000 (seen "a" 3 false) ∷ stored 7_000 (seen "b" 4 false) ∷ [])
window_exact_example =
    window_exact (window []) ((1_000, seen "a" 3 false) ∷ (7_000, seen "b" 4 false) ∷ []) 0 9_000
      (omega arith, (omega arith, omega arith))
