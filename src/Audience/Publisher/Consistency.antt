-- ===== src/Audience/Publisher/Consistency.antt =====
-- The parts of a signal against each other.
use adaptive_advertisement.Common.{
  ◌≡◌, refl, ap, sym, ◌∙◌, String, true, Bool-cases, inl, inr, Option, none, some, List, [], ◌∷◌,
  arith, any, filter,
}
use mathlib.Core.Option.{some-injective}
use adaptive_advertisement.Audience.Window.{
  ObservationWindow, State, degraded, prune, state_of, is_recent, compute_state, unless_empty,
  newest_observation_age_ms, any_pipeline_degraded,
}
use adaptive_advertisement.Audience.Window.Recent.{degraded_before}
use adaptive_advertisement.Audience.Window.Freezing.{state_of-IsTrusted, unless_empty-some}
use adaptive_advertisement.Audience.Publisher.{
  AudienceSignal, SignalPublisher, Clock, checked, assemble, build_from, build_signal,
}

-- What was pruned is degraded only if it was before.
degraded_state :
    (w : ObservationWindow)
    → any degraded w.observations ≡ true
    → (state_of w w.observations).freeze_decision ≡ true
degraded_state w h = elim (Bool-cases (state_of w w.observations).freeze_decision) [
  | inl e ↦ e
  | inr e ↦ ground (arith, ((state_of-IsTrusted w).0 e).sound, h)
]

assembled :
    (uuid : String) (t : Clock) (w : ObservationWindow) (state : State)
    → (assemble uuid t w state).1.pipeline_degraded ≡ true
    → any degraded w.observations ≡ true
unfolding assemble newest_observation_age_ms any_pipeline_degraded prune
assembled uuid t w state h = degraded_before w.window_ms t.at_age w.observations (
    degraded_before w.window_ms t.at_degraded
      (filter (is_recent w.window_ms t.at_age) w.observations) h)

given :
    (p : SignalPublisher) (s : AudienceSignal) (errors : List String) (signal : AudienceSignal)
    → (checked p s errors).1 ≡ some signal
    → s ≡ signal
unfolding checked
given p s [] signal h = some-injective _ _ h
given p s (e ∷ es) signal h = ground (arith, h)

built :
    (iter_errors : AudienceSignal → List String) (uuid : String) (t : Clock) (p : SignalPublisher)
    (w : ObservationWindow) (o : Option State) (s : AudienceSignal)
    → ((st : State) → o ≡ some st → state_of w w.observations ≡ st)
    → (build_from iter_errors uuid t p (w, o)).2 ≡ some s
    → s.pipeline_degraded ≡ true
    → s.state.freeze_decision ≡ true
unfolding build_from assemble
built iter_errors uuid t p w none s h e d = ground (arith, e)
built iter_errors uuid t p w (some state) s h e d =
    let is : (assemble uuid t w state).1 ≡ s = given p _ _ s e in
    let bad = assembled uuid t w state (ap (λ (x : AudienceSignal). x.pipeline_degraded) is ∙ d) in
    sym (ap (λ (x : AudienceSignal). x.state.freeze_decision) is)
    ∙ sym (ap (λ (x : State). x.freeze_decision) (h state refl))
    ∙ degraded_state w bad

-- A signal that is built and says its pipeline is degraded asks for a freeze too, although the two flags are read
-- off the window by queries of their own, each of which prunes it at its own time.
pub degraded_freezes :
    (iter_errors : AudienceSignal → List String) (uuid : String) (t : Clock) (p : SignalPublisher)
    (w : ObservationWindow) (s : AudienceSignal)
    → (build_signal iter_errors uuid t p w).2 ≡ some s
    → s.pipeline_degraded ≡ true
    → s.state.freeze_decision ≡ true
unfolding build_signal compute_state
degraded_freezes iter_errors uuid t p w s e d =
    let w' = prune t.at_state w in
    built iter_errors uuid t p w'
      (unless_empty w'.observations (some (state_of w' w'.observations))) s
      (unless_empty-some w'.observations (state_of w' w'.observations)) e d
