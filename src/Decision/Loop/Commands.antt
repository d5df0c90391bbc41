-- ===== src/Decision/Loop/Commands.antt =====
-- What a tick does when the policy selects a manifest.
use adaptive_advertisement.Common.{
  ℕ, ◌+◌, String, ◌≡◌, refl, ap, sym, subst, ◌∙◌, inl, inr, true, false, Bool-cases, not, ◌||◌,
  Option, none, some, List, [], ◌∷◌, ◌++◌, arith, All, opt_eq, opt_eq-some, some-opt_eq,
}
use mathlib.Core.List.{append-nil}
use adaptive_advertisement.Common.Outcome.{Outcome, ok}
use adaptive_advertisement.Decision.Signal.{Signal}
use adaptive_advertisement.Decision.Policy.{PolicyEngine, evaluate}
use adaptive_advertisement.Decision.Gateway.{Delivery, send_activate_creative}
use adaptive_advertisement.Decision.Gateway.Sends.{IsActivationOf, send_activate_creative-All}
use adaptive_advertisement.Decision.Loop.{
  DecisionLoop, Moment, activate, decide, tick_signal, tick_on, tick_with,
}
use adaptive_advertisement.Decision.Loop.Runs.{Reading, reason_of, after, sent_by, run}

-- At a reading there is no reason to freeze, and the engine selects a manifest for the signal.
pub record IsChosen (policy : PolicyEngine) (candidate : String) (r : Reading) : Type 0 where
  pub signal : Signal
  pub signal_is : r.signal ≡ some signal
  pub no_reason : reason_of r ≡ none
  pub evaluates : evaluate r.moment.draw r.moment.utc_hour policy signal ≡ ok (some candidate)

-- The tick takes the candidate as the current manifest and lifts a freeze. It sends nothing but
-- activations of it with the policy's times: what the gateway sends, if the candidate is not current
-- yet or the players are frozen, and nothing otherwise.
pub record IsActivated (t : Moment) (l : DecisionLoop) (s : Signal) (candidate : String)
    (l' : DecisionLoop) (sent : List Delivery) : Type 0 where
  pub manifest : l'.current_manifest_id ≡ some candidate
  pub thawed : l'.player_frozen ≡ false
  pub policy : l'.policy ≡ l.policy
  pub activations :
      All (IsActivationOf candidate l.policy.config.min_dwell_ms l.policy.config.cooldown_ms) sent
  pub changed_sends :
      not (opt_eq l.current_manifest_id candidate) || l.player_frozen ≡ true
      → sent
        ≡ (send_activate_creative t.network l.gateway candidate l.policy.config.min_dwell_ms
            l.policy.config.cooldown_ms
            (some (t.rationale s l.player_frozen))).2
  pub unchanged_silent :
      l.current_manifest_id ≡ some candidate → l.player_frozen ≡ false → sent ≡ []

activate-IsActivated :
    (t : Moment) (l : DecisionLoop) (s : Signal) (candidate : String)
    → IsActivated t l s candidate (activate t l s candidate).0 (activate t l s candidate).2
unfolding activate
activate-IsActivated t l s candidate =
    let sends =
      send_activate_creative-All t.network l.gateway candidate l.policy.config.min_dwell_ms
        l.policy.config.cooldown_ms (some (t.rationale s l.player_frozen)) in
    let back = opt_eq-some l.current_manifest_id candidate in
    let on = some-opt_eq l.current_manifest_id candidate in
    elim (Bool-cases (opt_eq l.current_manifest_id candidate)) [
      | inl same ↦ elim (Bool-cases l.player_frozen) [
        | inl frozen ↦ ground (arith, sends, back same)
        | inr thawed ↦ ground (arith, sends, back same)
      ]
      | inr other ↦ ground (arith, sends, on)
    ]

decided-IsActivated :
    (t : Moment) (l : DecisionLoop) (s : Signal) (candidate : String) (o : Outcome (Option String))
    → o ≡ ok (some candidate)
    → IsActivated t l s candidate (decide t l s o).0 (decide t l s o).2
unfolding decide
decided-IsActivated t l s candidate o e = rw e (activate-IsActivated t l s candidate)

chosen-IsActivated :
    (t : Moment) (l : DecisionLoop) (signal : Option Signal) (s : Signal) (reason : Option String)
    (candidate : String)
    → signal ≡ some s
    → reason ≡ none
    → evaluate t.draw t.utc_hour l.policy s ≡ ok (some candidate)
    → IsActivated t l s candidate (tick_on t l signal reason).0 (tick_on t l signal reason).2
unfolding tick_on tick_signal
chosen-IsActivated t l signal s reason candidate is no_reason evaluates =
    rw (is, no_reason) (decided-IsActivated t l s candidate _ evaluates)

-- The count of ticks is no part of it.
tick_count-IsActivated :
    (t : Moment) (l : DecisionLoop) (n : ℕ) (s : Signal) (candidate : String) (l' : DecisionLoop)
    (sent : List Delivery)
    → IsActivated t (record l { tick_count = n }) s candidate l' sent
    → IsActivated t l s candidate l' sent
tick_count-IsActivated t l n s candidate l' sent h = record {
  manifest = h.manifest;
  thawed = h.thawed;
  policy = h.policy;
  activations = h.activations;
  changed_sends = h.changed_sends;
  unchanged_silent = h.unchanged_silent;
}

-- A tick without a reason to freeze, at which the policy selects a manifest, makes it the current
-- one, lifts a freeze, and sends what the gateway's `send_activate_creative` sends for it if it was
-- not current or the players were frozen, and nothing if it was current and they were not.
pub tick-IsActivated :
    (l : DecisionLoop) (r : Reading) (candidate : String) (c : IsChosen l.policy candidate r)
    → IsActivated r.moment l c.signal candidate (after l r) (sent_by l r)
unfolding reason_of after sent_by tick_with
tick-IsActivated l r candidate c = tick_count-IsActivated r.moment l _ c.signal candidate _ _ (
    chosen-IsActivated r.moment (record l { tick_count = l.tick_count + 1 }) r.signal c.signal
      (reason_of r) candidate c.signal_is c.no_reason c.evaluates)

-- The policy selects the same manifest at every reading.
abbrev pub IsSteady : PolicyEngine → String → List Reading → Type 0
IsSteady policy candidate rs = All (IsChosen policy candidate) rs

IsSteady-policy :
    (p q : PolicyEngine) (candidate : String) (rs : List Reading)
    → q ≡ p
    → IsSteady p candidate rs
    → IsSteady q candidate rs
IsSteady-policy p q candidate rs e h = subst (λ x. IsSteady x candidate rs) (sym e) h

current_silent :
    (l : DecisionLoop) (candidate : String) (rs : List Reading)
    → l.current_manifest_id ≡ some candidate
    → l.player_frozen ≡ false
    → IsSteady l.policy candidate rs
    → (run l rs).1 ≡ []
unfolding run
current_silent l candidate [] m f h = refl
current_silent l candidate (r ∷ rs) m f (c, cs) =
    let a = tick-IsActivated l r candidate c in
    let later =
      current_silent (after l r) candidate rs a.manifest a.thawed
        (IsSteady-policy l.policy (after l r).policy candidate rs a.policy cs) in
    ap (λ xs. xs ++ (run (after l r) rs).1) (a.unchanged_silent m f) ∙ later

-- As long as there is no reason to freeze and the policy selects the same manifest, only the first
-- tick may send: whatever became of
-- that activation (it reached no player, or a player's dwell or cooldown time refused it), the
-- ticks after it send nothing.
pub never_retried :
    (l : DecisionLoop) (candidate : String) (r : Reading) (rs : List Reading)
    → IsSteady l.policy candidate (r ∷ rs)
    → (run l (r ∷ rs)).1 ≡ sent_by l r
unfolding run
never_retried l candidate r rs (c, cs) =
    let a = tick-IsActivated l r candidate c in
    let later =
      current_silent (after l r) candidate rs a.manifest a.thawed
        (IsSteady-policy l.policy (after l r).policy candidate rs a.policy cs) in
    ap (λ rest. sent_by l r ++ rest) later ∙ append-nil (sent_by l r)
