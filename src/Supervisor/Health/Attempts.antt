-- ===== src/Supervisor/Health/Attempts.antt =====
-- What the ladder makes of a container that `docker restart` cannot bring back.
use adaptive_advertisement.Common.{
  ℕ, ◌≤◌, ◌≡◌, refl, ap, sym, ◌∙◌, ◌⊎◌, inl, inr, Bool, true, false, some, List, [], ◌∷◌, ◌++◌,
  arith, All,
}
use mathlib.Core.List.{append-nil}
use adaptive_advertisement.Supervisor.Service.{
  Priority, ManagedService, ServiceState, new, record_healthy, record_failure, prune_timestamps,
}
use adaptive_advertisement.Supervisor.Restart.{
  RestartManager, RestartDecision, skipped, docker_failed, Docker, docker_restart,
}
use adaptive_advertisement.Supervisor.Restart.Cases.{
  is_terminal, IsEvaluated, too_early, left_alone, looped, gave_up, went_up, refused,
  evaluate_cases,
}
use adaptive_advertisement.Supervisor.Relay.{SafeModeRelay, PlayerStatus}
use adaptive_advertisement.Supervisor.Health.{Check, assess, escalate, watch}
use adaptive_advertisement.Supervisor.Health.Ladder.{
  Trace, fresh, healthy, is_restart, after_check, track,
}

-- No restart has been counted, and the ladder has not given up.
record IsUncounted (s : ServiceState) : Type 0 where
  count : s.restart_count ≡ 0
  times : s.restart_timestamps ≡ []
  in_boot_loop : s.in_boot_loop ≡ false
  escalated : s.escalated ≡ false

abbrev IsHarmless : RestartDecision → Type 0
IsHarmless d = (d ≡ skipped) ⊎ (d ≡ docker_failed)

failing-IsUncounted :
    (m : RestartManager) (docker : Docker) (now : ℕ) (s : ServiceState)
    (r : ServiceState × RestartDecision)
    → 1 ≤ m.boot_loop_threshold
    → 1 ≤ m.restart_threshold
    → docker_restart m docker ≡ false
    → IsUncounted s
    → IsEvaluated m docker now s r
    → IsUncounted r.0 × IsHarmless r.1
unfolding prune_timestamps
failing-IsUncounted m docker now s _ b t f u (too_early e) = (u, inl refl)
failing-IsUncounted m docker now s _ b t f u (left_alone e) = (u, inl refl)
failing-IsUncounted m docker now s _ b t f u (looped e k) =
    absurd (omega (arith, b, rw u.times at k))
failing-IsUncounted m docker now s _ b t f u (gave_up e k) = absurd (omega (arith, t, k, u.count))
failing-IsUncounted m docker now s _ b t f u (went_up e j k l) = ground (arith, sym l ∙ f)
failing-IsUncounted m docker now s _ b t f u (refused e l) = (
  record {
    count = u.count;
    times = rw u.times refl;
    in_boot_loop = u.in_boot_loop;
    escalated = u.escalated;
  },
  inr refl,
)

harmless_silent :
    (p : Priority) (a : PlayerStatus) (r : SafeModeRelay) (d : RestartDecision)
    → IsHarmless d
    → (escalate p a r (some d) ≡ (r, [])) × (is_restart (some d) ≡ false)
unfolding escalate
harmless_silent p a r d (inl e) = rw e (refl, refl)
harmless_silent p a r d (inr e) = rw e (refl, refl)

assess-IsUncounted :
    (m : RestartManager) (c : Check) (p : Priority) (r : SafeModeRelay) (s : ServiceState)
    (up : Bool)
    → 1 ≤ m.boot_loop_threshold
    → 1 ≤ m.restart_threshold
    → docker_restart m c.docker ≡ false
    → IsUncounted s
    → IsUncounted (assess m c s up).0
      × (escalate p c.player r (assess m c s up).1 ≡ (r, []))
      × (is_restart (assess m c s up).1 ≡ false)
unfolding assess record_healthy record_failure escalate
assess-IsUncounted m c p r s true b t f u = (ground (arith, u), refl, refl)
assess-IsUncounted m c p r s false b t f u =
    let u' : IsUncounted (record_failure s) = record {
      count = u.count;
      times = u.times;
      in_boot_loop = u.in_boot_loop;
      escalated = u.escalated;
    } in
    let k =
      failing-IsUncounted m c.docker c.now (record_failure s) _ b t f u'
        (evaluate_cases m c.docker c.now (record_failure s)) in
    let q = harmless_silent p c.player r _ k.1 in (k.0, q.0, q.1)

record IsUntouched (t : Trace) : Type 0 where
  state : IsUncounted t.state
  requests : t.requests ≡ []
  restarts : t.restarts ≡ []

after_check-IsUntouched :
    (m : RestartManager) (svc : ManagedService) (t : Trace) (c : Check)
    → 1 ≤ m.boot_loop_threshold
    → 1 ≤ m.restart_threshold
    → docker_restart m c.docker ≡ false
    → IsUntouched t
    → IsUntouched (after_check m svc t c)
unfolding after_check watch
after_check-IsUntouched m svc t c b k f u =
    let a = assess-IsUncounted m c svc.priority t.relay t.state (healthy svc c) b k f u.state in
    record {
      state = a.0;
      requests = ap (λ x. t.requests ++ x.1) a.1 ∙ append-nil t.requests ∙ u.requests;
      restarts = rw a.2 u.restarts;
    }

-- Every restart that the ladder tries fails.
abbrev pub IsFailing : RestartManager → List Check → Type 0
IsFailing m cs = All (λ (c : Check). docker_restart m c.docker ≡ false) cs

track-IsUntouched :
    (m : RestartManager) (svc : ManagedService) (t : Trace) (cs : List Check)
    → 1 ≤ m.boot_loop_threshold
    → 1 ≤ m.restart_threshold
    → IsFailing m cs
    → IsUntouched t
    → IsUntouched (track m svc t cs)
unfolding track
track-IsUntouched m svc t [] b k f u = u
track-IsUntouched m svc t (c ∷ cs) b k (f, fs) u =
    track-IsUntouched m svc (after_check m svc t c) cs b k fs
      (after_check-IsUntouched m svc t c b k f u)

-- With thresholds of at least 1, a container that `docker restart` fails on at every attempt never counts as a boot loop or as
-- escalated, however long it stays down: failed attempts are not counted, and the player is never
-- asked for safe mode on its behalf, not even for a critical service.
pub failing_never_escalates :
    (m : RestartManager) (svc : ManagedService) (r : SafeModeRelay) (cs : List Check)
    → 1 ≤ m.boot_loop_threshold
    → 1 ≤ m.restart_threshold
    → IsFailing m cs
    → let t = track m svc (fresh svc.name r) cs in
      (is_terminal t.state ≡ false) × (t.state.restart_count ≡ 0) × (t.requests ≡ [])
unfolding fresh new
failing_never_escalates m svc r cs b k f =
    let u = track-IsUntouched m svc (fresh svc.name r) cs b k f (record {
      state = record { count = refl; times = refl; in_boot_loop = refl; escalated = refl };
      requests = refl;
      restarts = refl;
    }) in
    (rw (u.state.in_boot_loop, u.state.escalated) refl, u.state.count, u.requests)
