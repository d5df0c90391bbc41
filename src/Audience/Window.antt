-- ===== src/Audience/Window.antt =====
-- services/audience-state/audience_state/observation_store.py: the sliding window. Times are
-- milliseconds of the monotonic clock. Each query prunes first, so it gives the window back as well;
-- one reading of the clock serves both calls of `add` and of `newest_observation_age_ms`.
pub mod Recent
pub mod Freezing
use adaptive_advertisement.Common.{
  ℕ, suc, ◌+◌, ◌-◌, ◌*◌, String, Bool, true, false, not, ◌||◌, ◌&&◌, Option, none, some, is_some,
  List, [], ◌∷◌, ◌++◌, map, filter, any, all, sum, length, last?, ltb, leb, if◌then◌else◌,
}
use adaptive_advertisement.Common.Outcome.{Outcome, ok, raised, value_error}
use adaptive_advertisement.Decision.Signal.{
  Bin, child, young_adult, adult, senior, male, female, formal, business_casual, casual, athletic,
  outdoor_technical, workwear_uniform, streetwear, luxury_premium, lounge_comfort, smart_occasion,
  or_false,
}
use adaptive_advertisement.Audience.Numbers.{mean, mean4, present_all, present_only}

-- `demographics` of an observation; an age group that is not there has no bin.
pub record Demographics : Type 0 where
  pub age_group : Bin → Option ℕ
  pub gender : Option (Bin → Option ℕ)
  pub attire : Option (Bin → Option ℕ)
  pub dwell_estimate_ms : Option ℕ

pub record Attention : Type 0 where
  pub engaged : Option ℕ
  pub ambient : Option ℕ

-- A valid cv-observation (ICD-2), as much as is read of it.
pub record Observation : Type 0 where
  pub message_id : String
  pub present : ℕ
  pub confidence : ℕ
  pub pipeline_degraded : Option Bool
  pub demographics : Option Demographics
  pub attention : Option Attention

pub record Stored : Type 0 where
  pub data_of : Observation
  pub received_at : ℕ

pub record ObservationWindow : Type 0 where
  pub window_ms : ℕ
  pub min_stability : ℕ
  pub conf_threshold : ℕ
  -- units in 0.0001
  pub scale : ℕ
  pub observations : List Stored
  pub total_added : ℕ

unfoldable pub new :
    (scale window_ms min_stability_observations confidence_freeze_threshold : ℕ)
    → Outcome ObservationWindow
new scale window_ms min_stability conf_threshold =
    if ltb window_ms 100
    then raised value_error
    else if ltb min_stability 1
    then raised value_error
    else if ltb (10000 * scale) conf_threshold
    then raised value_error
    else ok (record {
      window_ms = window_ms;
      min_stability = min_stability;
      conf_threshold = conf_threshold;
      scale = scale;
      observations = [];
      total_added = 0;
    })

-- `received_at >= now - window`
abbrev pub is_recent : (window now : ℕ) → Stored → Bool
is_recent window now o = leb now (o.received_at + window)

unfoldable pub prune : (now : ℕ) → ObservationWindow → ObservationWindow
prune now w = record w { observations = filter (is_recent w.window_ms now) w.observations }

unfoldable pub add : (now : ℕ) → Observation → ObservationWindow → ObservationWindow
unfolding prune
add now o w =
    let w' = prune now w in
    record w' {
      observations = w'.observations ++ (record { data_of = o; received_at = now } ∷ []);
      total_added = w'.total_added + 1;
    }

-- The presence and stability blocks of a signal.
pub record State : Type 0 where
  pub count : ℕ
  pub confidence : ℕ
  pub state_stable : Bool
  pub freeze_decision : Bool
  pub observations_in_window : ℕ

abbrev pub degraded : Stored → Bool
degraded o = or_false o.data_of.pipeline_degraded

unfoldable pub state_of : ObservationWindow → List Stored → State
unfolding mean mean4
state_of w obs =
    let conf = mean4 w.scale (map (λ (o : Stored). o.data_of.confidence) obs) in
    let stable = leb w.min_stability (length obs) in
    record {
      count = mean (map (λ (o : Stored). o.data_of.present) obs);
      confidence = conf;
      state_stable = stable;
      freeze_decision = not stable || ltb conf w.conf_threshold || any degraded obs;
      observations_in_window = length obs;
    }

-- `if not self._observations: return None`
unfoldable pub unless_empty {ℓ} : {A : Type ℓ} → List Stored → Option A → Option A
unless_empty [] r = none
unless_empty (o ∷ obs) r = r

unfoldable pub compute_state : (now : ℕ) → ObservationWindow → ObservationWindow × Option State
unfolding prune unless_empty state_of
compute_state now w =
    let w' = prune now w in (w', unless_empty w'.observations (some (state_of w' w'.observations)))

-- `o` before the rest, if it is there
abbrev pub with_any {ℓ} : {A : Type ℓ} → Option A → List A → List A
with_any none rest = rest
with_any (some a) rest = a ∷ rest

with_attention : List Stored → List Attention
with_attention [] = []
with_attention (o ∷ obs) = with_any o.data_of.attention (with_attention obs)

field_mean : (scale : ℕ) → List ℕ → Option ℕ
unfolding mean4
field_mean scale [] = none
field_mean scale (v ∷ vs) = some (mean4 scale (v ∷ vs))

-- `return result if result else None`
if_any : Attention → Option Attention
if_any a = if is_some a.engaged || is_some a.ambient then some a else none

unfoldable pub compute_attention :
    (now : ℕ) → ObservationWindow → ObservationWindow × Option Attention
unfolding prune unless_empty with_attention field_mean if_any present_only
compute_attention now w =
    let w' = prune now w in
    let attn = with_attention w'.observations in
    (
      w',
      unless_empty w'.observations (
          if_any (record {
            engaged = field_mean w'.scale (present_only (map (λ (a : Attention). a.engaged) attn));
            ambient = field_mean w'.scale (present_only (map (λ (a : Attention). a.ambient) attn));
          })),
    )

unfoldable pub newest_observation_age_ms :
    (now : ℕ) → ObservationWindow → ObservationWindow × Option ℕ
unfolding prune
newest_observation_age_ms now w =
    let w' = prune now w in
    (w', elim (last? w'.observations) [ none ↦ none | some o ↦ some (now - o.received_at) ])

unfoldable pub any_pipeline_degraded : (now : ℕ) → ObservationWindow → ObservationWindow × Bool
unfolding prune
any_pipeline_degraded now w = let w' = prune now w in (w', any degraded w'.observations)

unfoldable pub observation_count : (now : ℕ) → ObservationWindow → ObservationWindow × ℕ
unfolding prune
observation_count now w = let w' = prune now w in (w', length w'.observations)
