-- ===== src/Audience/Publisher.antt =====
-- services/audience-state/audience_state/signal_publisher.py: the signal built of the window. The
-- validator of the jsonschema package and `uuid4()` are parameters. The keys that are constants
-- (versions, tenant, privacy flags) and `produced_at` are left out.
pub mod Consistency
use adaptive_advertisement.Common.{
  ℕ, ◌+◌, String, Bool, true, false, Option, none, some, List, [], ◌∷◌,
}
use adaptive_advertisement.Audience.Window.{
  ObservationWindow, State, Attention, compute_state, compute_attention, newest_observation_age_ms,
  any_pipeline_degraded,
}
use adaptive_advertisement.Audience.Demographics.{DemographicsBlock, compute_demographics}

pub record AudienceSignal : Type 0 where
  pub message_id : String
  pub state : State
  pub signal_age_ms : ℕ
  pub pipeline_degraded : Bool
  pub demographics : Option DemographicsBlock
  pub attention : Option Attention

pub record SignalPublisher : Type 0 where
  pub published : ℕ
  pub validation_failures : ℕ

abbrev pub new : SignalPublisher
new = record { published = 0; validation_failures = 0 }

-- The clock at each of the five queries.
pub record Clock : Type 0 where
  pub at_state : ℕ
  pub at_age : ℕ
  pub at_degraded : ℕ
  pub at_demographics : ℕ
  pub at_attention : ℕ

checked : SignalPublisher → AudienceSignal → List String → SignalPublisher × Option AudienceSignal
checked p s [] = (p, some s)
checked p s (e ∷ es) = (record p { validation_failures = p.validation_failures + 1 }, none)

or_zero : Option ℕ → ℕ
or_zero none = 0
or_zero (some n) = n

assemble : (uuid : String) → Clock → ObservationWindow → State → ObservationWindow × AudienceSignal
unfolding or_zero newest_observation_age_ms any_pipeline_degraded compute_demographics
    compute_attention
assemble uuid t w state =
    let (w1, age) = newest_observation_age_ms t.at_age w in
    let (w2, bad) = any_pipeline_degraded t.at_degraded w1 in
    let (w3, demog) = compute_demographics t.at_demographics w2 in
    let (w4, attn) = compute_attention t.at_attention w3 in
    (
      w4,
      record {
        message_id = uuid;
        state = state;
        signal_age_ms = or_zero age;
        pipeline_degraded = bad;
        demographics = demog;
        attention = attn;
      },
    )

build_from :
    (iter_errors : AudienceSignal → List String)
    → (uuid : String) → Clock
    → SignalPublisher
    → ObservationWindow × Option State
    → SignalPublisher × ObservationWindow × Option AudienceSignal
unfolding checked assemble
build_from iter_errors uuid t p (w, none) = (p, w, none)
build_from iter_errors uuid t p (w, some state) =
    let (w', s) = assemble uuid t w state in
    let (p', r) = checked p s (iter_errors s) in (p', w', r)

unfoldable pub build_signal :
    (iter_errors : AudienceSignal → List String)
    → (uuid : String) → Clock
    → SignalPublisher
    → ObservationWindow
    → SignalPublisher × ObservationWindow × Option AudienceSignal
unfolding build_from compute_state
build_signal iter_errors uuid t p w = build_from iter_errors uuid t p (compute_state t.at_state w)

-- `publish`, by whether the client takes the message.
unfoldable pub publish : (delivered : Bool) → SignalPublisher → SignalPublisher × Bool
publish true p = (record p { published = p.published + 1 }, true)
publish false p = (p, false)
