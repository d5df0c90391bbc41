-- ===== src/Supervisor/Restart/Cases.antt =====
-- The outcomes of `evaluate`, as a relation with one constructor for each way through it.
use adaptive_advertisement.Common.{
  ℕ, ◌≤◌, ◌<◌, ◌≡◌, inl, inr, Bool, true, false, Bool-cases, ◌||◌, length, leb, leb→le, ltb, arith,
}
use adaptive_advertisement.Supervisor.Service.{ServiceState, record_restart, prune_timestamps}
use adaptive_advertisement.Supervisor.Restart.{
  RestartManager, RestartDecision, restarted, boot_loop, escalated, skipped, docker_failed, Docker,
  docker_restart, climb, attempt, evaluate,
}

abbrev pub is_terminal : ServiceState → Bool
is_terminal s = s.in_boot_loop || s.escalated

abbrev pub pruned : RestartManager → (now : ℕ) → ServiceState → ServiceState
pruned m now s = prune_timestamps m.fast_fail_window now s

pub data IsEvaluated (m : RestartManager) (docker : Docker) (now : ℕ) (s : ServiceState)
    : ServiceState × RestartDecision → Type 0 where
  too_early : s.consecutive_failures < m.failure_threshold → IsEvaluated m docker now s (s, skipped)
  left_alone : is_terminal s ≡ true → IsEvaluated m docker now s (s, skipped)
  looped :
      is_terminal s ≡ false
      → m.boot_loop_threshold ≤ length (pruned m now s).restart_timestamps
      → IsEvaluated m docker now s (record (pruned m now s) { in_boot_loop = true }, boot_loop)
  gave_up :
      is_terminal s ≡ false
      → m.restart_threshold ≤ s.restart_count
      → IsEvaluated m docker now s (record (pruned m now s) { escalated = true }, escalated)
  went_up :
      is_terminal s ≡ false
      → length (pruned m now s).restart_timestamps < m.boot_loop_threshold
      → s.restart_count < m.restart_threshold
      → docker_restart m docker ≡ true
      → IsEvaluated m docker now s (record_restart now (pruned m now s), restarted)
  refused :
      is_terminal s ≡ false
      → docker_restart m docker ≡ false
      → IsEvaluated m docker now s (pruned m now s, docker_failed)

climb_cases :
    (m : RestartManager) (docker : Docker) (now : ℕ) (s : ServiceState)
    → is_terminal s ≡ false
    → let s' = prune_timestamps m.fast_fail_window now s in
      IsEvaluated m docker now s (climb m docker now s')
unfolding climb attempt prune_timestamps
climb_cases m docker now s going =
    let s' = prune_timestamps m.fast_fail_window now s in
    elim (Bool-cases (leb m.boot_loop_threshold (length s'.restart_timestamps))) [
      | inl many ↦
          rw many (looped going (leb→le m.boot_loop_threshold (length s'.restart_timestamps) many))
      | inr few ↦ elim (Bool-cases (leb m.restart_threshold s.restart_count)) [
        | inl over ↦
            rw (few, over) (gave_up going (leb→le m.restart_threshold s.restart_count over))
        | inr under ↦ elim (Bool-cases (docker_restart m docker)) [
          | inl up ↦
              rw (few, under, up) (went_up going (ground (arith, few)) (ground (arith, under)) up)
          | inr down ↦ rw (few, under, down) (refused going down)
        ]
      ]
    ]

pub evaluate_cases :
    (m : RestartManager) (docker : Docker) (now : ℕ) (s : ServiceState)
    → IsEvaluated m docker now s (evaluate m docker now s)
unfolding evaluate
evaluate_cases m docker now s = elim (Bool-cases (ltb s.consecutive_failures m.failure_threshold)) [
  | inl early ↦ rw early (too_early (ground (arith, early)))
  | inr due ↦ elim (Bool-cases (is_terminal s)) [
    | inl over ↦ rw (due, over) (left_alone over)
    | inr going ↦ rw (due, going) (climb_cases m docker now s going)
  ]
]
