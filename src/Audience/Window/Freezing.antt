-- ===== src/Audience/Window/Freezing.antt =====
-- When the window asks for a freeze.
use adaptive_advertisement.Common.{
  ℕ, ◌≤◌, ◌≡◌, subst, ◌↔◌, Bool, false, not, ◌||◌, some, List, [], ◌∷◌, arith, leb, ltb, length,
  map, any,
}
use mathlib.Core.Option.{some-injective}
use adaptive_advertisement.Audience.Numbers.{mean4}
use adaptive_advertisement.Audience.Window.{
  ObservationWindow, Stored, State, degraded, prune, state_of, compute_state, unless_empty,
}

-- The window's grounds for letting decisions go on.
pub record IsTrusted (w : ObservationWindow) : Type 0 where
  pub enough : w.min_stability ≤ length w.observations
  pub confident :
      w.conf_threshold ≤ mean4 w.scale (map (λ (o : Stored). o.data_of.confidence) w.observations)
  pub sound : any degraded w.observations ≡ false

no_freeze :
    (m n t c : ℕ) (d : Bool)
    → not (leb m n) || ltb c t || d ≡ false
    → (m ≤ n) × (t ≤ c) × (d ≡ false)
no_freeze m n t c d h = ground arith

freeze_not :
    (m n t c : ℕ) (d : Bool) → m ≤ n → t ≤ c → d ≡ false → not (leb m n) || ltb c t || d ≡ false
freeze_not m n t c d enough confident sound = ground arith

pub state_of-IsTrusted :
    (w : ObservationWindow) → ((state_of w w.observations).freeze_decision ≡ false) ↔ IsTrusted w
unfolding state_of
state_of-IsTrusted w =
    let conf = mean4 w.scale (map (λ (o : Stored). o.data_of.confidence) w.observations) in
    let n = length w.observations in
    (
      λ e.
          let k =
            no_freeze w.min_stability n w.conf_threshold conf (any degraded w.observations) e in
          record { enough = k.0; confident = k.1; sound = k.2 },
      λ t.
          freeze_not w.min_stability n w.conf_threshold conf (any degraded w.observations) t.enough
            t.confident t.sound,
    )

pub unless_empty-some :
    (obs : List Stored) (s st : State) → unless_empty obs (some s) ≡ some st → s ≡ st
unfolding unless_empty
unless_empty-some [] s st h = ground (arith, h)
unless_empty-some (o ∷ obs) s st h = some-injective _ _ h

-- The state that is computed does not ask for a freeze exactly if, of the observations that are still
-- recent, there are enough, their rounded mean confidence reaches the threshold, and none is
-- degraded.
pub freeze_decision_iff :
    (now : ℕ) (w : ObservationWindow) (st : State)
    → (compute_state now w).1 ≡ some st
    → (st.freeze_decision ≡ false) ↔ IsTrusted (prune now w)
unfolding compute_state
freeze_decision_iff now w st h =
    subst (λ (x : State). (x.freeze_decision ≡ false) ↔ IsTrusted (prune now w))
      (unless_empty-some (prune now w).observations
        (state_of (prune now w) (prune now w).observations) st h)
      (state_of-IsTrusted (prune now w))
