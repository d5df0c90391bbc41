-- ===== src/Supervisor/Health/Ladder.antt =====
-- What the restart ladder guarantees of one service over any sequence of looks at it.
use adaptive_advertisement.Common.{
  ℕ, String, ◌≡◌, refl, ap, sym, ◌∙◌, ◌⊎◌, inl, inr, Bool, true, false, ◌||◌, Option, none, some,
  List, [], ◌∷◌, ◌++◌, arith, if◌then◌else◌,
}
use mathlib.Core.List.{append-nil}
use adaptive_advertisement.Supervisor.Service.{
  Priority, ManagedService, ServiceState, new, record_healthy, record_failure, probe,
}
use adaptive_advertisement.Supervisor.Restart.{
  RestartManager, RestartDecision, restarted, skipped, Docker,
}
use adaptive_advertisement.Supervisor.Restart.Cases.{
  is_terminal, IsEvaluated, too_early, left_alone, looped, gave_up, went_up, refused,
  evaluate_cases,
}
use adaptive_advertisement.Supervisor.Relay.{SafeModeRelay, Request, PlayerStatus}
use adaptive_advertisement.Supervisor.Health.{Check, assess, escalate, watch}

-- A service under watch, with the requests made for it and the times of its restarts so far.
pub record Trace : Type 0 where
  pub state : ServiceState
  pub relay : SafeModeRelay
  pub requests : List Request
  pub restarts : List ℕ

unfoldable pub fresh : (name : String) → SafeModeRelay → Trace
fresh name r = record { state = new name; relay = r; requests = []; restarts = [] }

abbrev pub healthy : ManagedService → Check → Bool
healthy svc c = (probe svc.name svc.healthz_url c.response).healthy

abbrev pub is_restart : Option RestartDecision → Bool
is_restart (some restarted) = true
is_restart _ = false

unfoldable pub after_check : RestartManager → ManagedService → Trace → Check → Trace
after_check m svc t c =
    let seen = watch m svc c t.state t.relay in
    record {
      state = seen.0;
      relay = seen.1;
      requests = t.requests ++ seen.2;
      restarts =
          if is_restart (assess m c t.state (healthy svc c)).1
          then t.restarts ++ (c.now ∷ [])
          else t.restarts;
    }

unfoldable pub track : RestartManager → ManagedService → Trace → List Check → Trace
unfolding after_check
track m svc t [] = t
track m svc t (c ∷ cs) = track m svc (after_check m svc t c) cs

-- One look at a service that the ladder has given up on.
record IsLeft (s s' : ServiceState) (d : Option RestartDecision) : Type 0 where
  in_boot_loop : s'.in_boot_loop ≡ s.in_boot_loop
  escalated : s'.escalated ≡ s.escalated
  restart_count : s'.restart_count ≡ s.restart_count
  decision : (d ≡ none) ⊎ (d ≡ some skipped)

terminal-IsLeft :
    (m : RestartManager) (docker : Docker) (now : ℕ) (s : ServiceState)
    (r : ServiceState × RestartDecision)
    → is_terminal s ≡ true
    → IsEvaluated m docker now s r
    → IsLeft s r.0 (some r.1)
terminal-IsLeft m docker now s _ h (too_early e) = ground arith
terminal-IsLeft m docker now s _ h (left_alone e) = ground arith
terminal-IsLeft m docker now s _ h (looped e k) = ground (arith, sym h ∙ e)
terminal-IsLeft m docker now s _ h (gave_up e k) = ground (arith, sym h ∙ e)
terminal-IsLeft m docker now s _ h (went_up e j k l) = ground (arith, sym h ∙ e)
terminal-IsLeft m docker now s _ h (refused e l) = ground (arith, sym h ∙ e)

assess-IsLeft :
    (m : RestartManager) (c : Check) (s : ServiceState) (up : Bool)
    → is_terminal s ≡ true
    → IsLeft s (assess m c s up).0 (assess m c s up).1
unfolding assess record_healthy record_failure
assess-IsLeft m c s true h = ground arith
assess-IsLeft m c s false h =
    let l =
      terminal-IsLeft m c.docker c.now (record_failure s) _ h
        (evaluate_cases m c.docker c.now (record_failure s)) in
    record {
      in_boot_loop = l.in_boot_loop;
      escalated = l.escalated;
      restart_count = l.restart_count;
      decision = l.decision;
    }

no_request :
    (p : Priority) (a : PlayerStatus) (r : SafeModeRelay) (d : Option RestartDecision)
    → (d ≡ none) ⊎ (d ≡ some skipped)
    → (escalate p a r d ≡ (r, [])) × (is_restart d ≡ false)
unfolding escalate
no_request p a r d (inl e) = rw e (refl, refl)
no_request p a r d (inr e) = rw e (refl, refl)

-- Nothing of a trace changes but what probes alone change.
pub record IsSettled (t t' : Trace) : Type 0 where
  pub in_boot_loop : t'.state.in_boot_loop ≡ t.state.in_boot_loop
  pub escalated : t'.state.escalated ≡ t.state.escalated
  pub restart_count : t'.state.restart_count ≡ t.state.restart_count
  pub relay : t'.relay ≡ t.relay
  pub requests : t'.requests ≡ t.requests
  pub restarts : t'.restarts ≡ t.restarts

after_check-IsSettled :
    (m : RestartManager) (svc : ManagedService) (t : Trace) (c : Check)
    → is_terminal t.state ≡ true
    → IsSettled t (after_check m svc t c)
unfolding after_check watch
after_check-IsSettled m svc t c h =
    let l = assess-IsLeft m c t.state (healthy svc c) h in
    let d = (assess m c t.state (healthy svc c)).1 in
    let q = no_request svc.priority c.player t.relay d l.decision in
    record {
      in_boot_loop = l.in_boot_loop;
      escalated = l.escalated;
      restart_count = l.restart_count;
      relay = ap (λ x. x.0) q.0;
      requests = ap (λ x. t.requests ++ x.1) q.0 ∙ append-nil t.requests;
      restarts = rw q.1 refl;
    }

-- A boot loop or an escalation is final: whatever the probes say afterwards, the flags stay, the
-- container is not restarted again, and the player is not asked again for safe mode, even if the
-- one request that was made has failed.
pub terminal_sticky :
    (m : RestartManager) (svc : ManagedService) (t : Trace) (cs : List Check)
    → is_terminal t.state ≡ true
    → IsSettled t (track m svc t cs)
unfolding track
terminal_sticky m svc t [] h = ground arith
terminal_sticky m svc t (c ∷ cs) h =
    let f = after_check-IsSettled m svc t c h in
    let l = terminal_sticky m svc (after_check m svc t c) cs (
      ap (λ b. b || (after_check m svc t c).state.escalated) f.in_boot_loop
      ∙ ap (λ b. t.state.in_boot_loop || b) f.escalated
      ∙ h) in
    ground (arith, f, l)
