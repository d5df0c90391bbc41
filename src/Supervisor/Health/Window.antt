-- ===== src/Supervisor/Health/Window.antt =====
-- How often a container is restarted: in all, and within the window of boot-loop detection.
use adaptive_advertisement.Common.{
  ℕ, ◌≤◌, ◌<◌, ◌≡◌, refl, ap, sym, ◌∙◌, Bool, true, false, List, [], ◌∷◌, ◌++◌, arith, length,
  length-append, filter, some, if◌then◌else◌,
}
use adaptive_advertisement.Supervisor.Service.{
  ManagedService, ServiceState, new, record_healthy, record_failure, record_restart,
  prune_timestamps, is_recent,
}
use adaptive_advertisement.Supervisor.Restart.{RestartManager, RestartDecision, Docker}
use adaptive_advertisement.Supervisor.Restart.Cases.{
  IsEvaluated, too_early, left_alone, looped, gave_up, went_up, refused, pruned, evaluate_cases,
}
use adaptive_advertisement.Supervisor.Relay.{SafeModeRelay}
use adaptive_advertisement.Supervisor.Health.{Check, assess, watch}
use adaptive_advertisement.Supervisor.Health.Ladder.{
  Trace, fresh, healthy, is_restart, after_check, track,
}
use adaptive_advertisement.Supervisor.Health.Recent.{
  filter-append, filter_pruned, length_recent_le, length_one,
}

-- The service's state against all restarts that were made up to `now`.
record IsWindowed (m : RestartManager) (now : ℕ) (s : ServiceState) (restarts : List ℕ)
    : Type 0 where
  count : s.restart_count ≡ length restarts
  below : s.restart_count ≤ m.restart_threshold
  same :
      (u : ℕ)
      → now ≤ u
      → filter (is_recent m.fast_fail_window u) restarts
        ≡ filter (is_recent m.fast_fail_window u) s.restart_timestamps
  few :
      (u : ℕ)
      → now ≤ u
      → length (filter (is_recent m.fast_fail_window u) restarts) ≤ m.boot_loop_threshold

added : RestartDecision → (now : ℕ) → List ℕ → List ℕ
added d now restarts = if is_restart (some d) then restarts ++ (now ∷ []) else restarts

pruned_same :
    (m : RestartManager) (before now : ℕ) (s : ServiceState) (restarts : List ℕ)
    → before ≤ now
    → IsWindowed m before s restarts
    → (u : ℕ) → now ≤ u
    → filter (is_recent m.fast_fail_window u) restarts
      ≡ filter (is_recent m.fast_fail_window u) (pruned m now s).restart_timestamps
unfolding prune_timestamps
pruned_same m before now s restarts le w u h =
    w.same u (omega (arith, le, h))
    ∙ sym (filter_pruned m.fast_fail_window now u s.restart_timestamps h)

quiet-IsWindowed :
    (m : RestartManager) (before now : ℕ) (s s' : ServiceState) (restarts : List ℕ)
    → before ≤ now
    → IsWindowed m before s restarts
    → s'.restart_count ≡ s.restart_count
    → s'.restart_timestamps ≡ (pruned m now s).restart_timestamps
    → IsWindowed m now s' restarts
quiet-IsWindowed m before now s s' restarts le w c e = record {
  count = c ∙ w.count;
  below = omega (arith, w.below, c);
  same = λ u h.
      pruned_same m before now s restarts le w u h
      ∙ ap (filter (is_recent m.fast_fail_window u)) (sym e);
  few = λ u h. w.few u (omega (arith, le, h));
}

later-IsWindowed :
    (m : RestartManager) (before now : ℕ) (s : ServiceState) (restarts : List ℕ)
    → before ≤ now
    → IsWindowed m before s restarts
    → IsWindowed m now s restarts
later-IsWindowed m before now s restarts le w = record {
  count = w.count;
  below = w.below;
  same = λ u h. w.same u (omega (arith, le, h));
  few = λ u h. w.few u (omega (arith, le, h));
}

restarted-IsWindowed :
    (m : RestartManager) (before now : ℕ) (s : ServiceState) (restarts : List ℕ)
    → before ≤ now
    → IsWindowed m before s restarts
    → length (pruned m now s).restart_timestamps < m.boot_loop_threshold
    → s.restart_count < m.restart_threshold
    → IsWindowed m now (record_restart now (pruned m now s)) (restarts ++ (now ∷ []))
unfolding record_restart prune_timestamps
restarted-IsWindowed m before now s restarts le w few under = record {
  count = omega (arith, w.count, length-append restarts (now ∷ []));
  below = omega (arith, under);
  same = λ u h.
      let p = is_recent m.fast_fail_window u in
      filter-append p restarts (now ∷ [])
      ∙ ap (λ xs. xs ++ filter p (now ∷ [])) (pruned_same m before now s restarts le w u h)
      ∙ sym (filter-append p (pruned m now s).restart_timestamps (now ∷ []));
  few = λ u h.
      let p = is_recent m.fast_fail_window u in
      omega (
        arith,
        few,
        length_one p now,
        ap length (filter-append p restarts (now ∷ [])),
        length-append (filter p restarts) (filter p (now ∷ [])),
        ap length (w.same u (omega (arith, le, h))),
        length_recent_le m.fast_fail_window now u s.restart_timestamps h,
      );
}

evaluated-IsWindowed :
    (m : RestartManager) (docker : Docker) (before now : ℕ) (s : ServiceState) (restarts : List ℕ)
    (r : ServiceState × RestartDecision)
    → before ≤ now
    → IsWindowed m before s restarts
    → IsEvaluated m docker now s r
    → IsWindowed m now r.0 (added r.1 now restarts)
unfolding added prune_timestamps
evaluated-IsWindowed m docker before now s restarts _ le w (too_early e) =
    later-IsWindowed m before now s restarts le w
evaluated-IsWindowed m docker before now s restarts _ le w (left_alone e) =
    later-IsWindowed m before now s restarts le w
evaluated-IsWindowed m docker before now s restarts _ le w (looped e k) =
    quiet-IsWindowed m before now s _ restarts le w refl refl
evaluated-IsWindowed m docker before now s restarts _ le w (gave_up e k) =
    quiet-IsWindowed m before now s _ restarts le w refl refl
evaluated-IsWindowed m docker before now s restarts _ le w (went_up e few under k) =
    restarted-IsWindowed m before now s restarts le w few under
evaluated-IsWindowed m docker before now s restarts _ le w (refused e k) =
    quiet-IsWindowed m before now s _ restarts le w refl refl

probed-IsWindowed :
    (m : RestartManager) (now : ℕ) (s s' : ServiceState) (restarts : List ℕ)
    → IsWindowed m now s restarts
    → s'.restart_count ≡ s.restart_count
    → s'.restart_timestamps ≡ s.restart_timestamps
    → IsWindowed m now s' restarts
probed-IsWindowed m now s s' restarts w c e = record {
  count = c ∙ w.count;
  below = omega (arith, w.below, c);
  same = λ u h. w.same u h ∙ ap (filter (is_recent m.fast_fail_window u)) (sym e);
  few = w.few;
}

assess-IsWindowed :
    (m : RestartManager) (c : Check) (before : ℕ) (s : ServiceState) (restarts : List ℕ) (up : Bool)
    → before ≤ c.now
    → IsWindowed m before s restarts
    → IsWindowed m c.now
        (assess m c s up).0
        (if is_restart (assess m c s up).1 then restarts ++ (c.now ∷ []) else restarts)
unfolding assess record_healthy record_failure added
assess-IsWindowed m c before s restarts true le w =
    probed-IsWindowed m c.now s _ restarts (later-IsWindowed m before c.now s restarts le w) refl
      refl
assess-IsWindowed m c before s restarts false le w =
    evaluated-IsWindowed m c.docker before c.now (record_failure s) restarts _ le
      (probed-IsWindowed m before s _ restarts w refl refl)
      (evaluate_cases m c.docker c.now (record_failure s))

-- The clock does not go back: each look is at or after the one before it, the first at or after a
-- time, and the last at or before another.
abbrev pub IsAscending : (first : ℕ) → List Check → (last : ℕ) → Type 0
IsAscending first [] last = first ≤ last
IsAscending first (c ∷ cs) last = (first ≤ c.now) × IsAscending c.now cs last

after_check-IsWindowed :
    (m : RestartManager) (svc : ManagedService) (t : Trace) (c : Check) (first : ℕ)
    → first ≤ c.now
    → IsWindowed m first t.state t.restarts
    → IsWindowed m c.now (after_check m svc t c).state (after_check m svc t c).restarts
unfolding after_check watch
after_check-IsWindowed m svc t c first h w =
    assess-IsWindowed m c first t.state t.restarts (healthy svc c) h w

track-IsWindowed :
    (m : RestartManager) (svc : ManagedService) (t : Trace) (cs : List Check) (first last : ℕ)
    → IsAscending first cs last
    → IsWindowed m first t.state t.restarts
    → IsWindowed m last (track m svc t cs).state (track m svc t cs).restarts
unfolding track
track-IsWindowed m svc t [] first last h w = later-IsWindowed m first last t.state t.restarts h w
track-IsWindowed m svc t (c ∷ cs) first last (h, hs) w =
    track-IsWindowed m svc (after_check m svc t c) cs c.now last hs
      (after_check-IsWindowed m svc t c first h w)

-- Over any sequence of looks at a service, with a clock that does not go back: the container is
-- restarted at most `restart_threshold` times in all, `restart_count` is the number of restarts, and
-- at every time the restarts of the last `fast_fail_window` are at most `boot_loop_threshold`.
pub restarts_bounded :
    (m : RestartManager) (svc : ManagedService) (r : SafeModeRelay) (cs : List Check) (now : ℕ)
    → IsAscending 0 cs now
    → let t = track m svc (fresh svc.name r) cs in
      (t.state.restart_count ≡ length t.restarts)
      × (length t.restarts ≤ m.restart_threshold)
      × (length (filter (is_recent m.fast_fail_window now) t.restarts) ≤ m.boot_loop_threshold)
unfolding fresh new
restarts_bounded m svc r cs now h =
    let w = track-IsWindowed m svc (fresh svc.name r) cs 0 now h (record {
      count = refl;
      below = omega arith;
      same = λ u k. refl;
      few = λ u k. omega arith;
    }) in
    (w.count, omega (arith, w.count, w.below), w.few now (omega arith))
