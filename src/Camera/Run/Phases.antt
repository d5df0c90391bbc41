-- ===== src/Camera/Run/Phases.antt =====
-- What the health of the camera service says of its loop.
use adaptive_advertisement.Common.{
  ◌≤◌, ◌≡◌, refl, inl, inr, Bool, true, false, Bool-cases, List, [], ◌∷◌, ◌++◌, arith, All,
  All-append, length, length-append,
}
use adaptive_advertisement.Camera.Tracker.{
  running, mark_device_present, mark_device_absent, mark_pipeline_running, record_frame,
  increment_reopen,
}
use adaptive_advertisement.Camera.Reopen.{ReopenLoop, next_backoff, wait_and_record, reset}
use adaptive_advertisement.Camera.Reopen.Backoff.{next_backoff-le}
use adaptive_advertisement.Camera.Run.{
  RawMeta, has_banned_key, build_observation, Phase, opening, reading, stopped, Service, new, Event,
  opened, not_found, metadata, read_error, shutdown, publish_all, lose_device, open_device,
  read_frames, step_in, step, run,
}

-- While frames are read the device is there, the pipeline runs and the next wait is the first one;
-- while the device is opened it is not there. Each reopen is one sleep, none above the limit.
pub record Inv (s : Service) : Type 0 where
  pub running_device : s.phase ≡ reading → s.health.device_present ≡ true
  pub running_state : s.phase ≡ reading → s.health.pipeline_state ≡ running
  pub first_attempt : s.phase ≡ reading → s.reopen.attempt ≡ 0
  pub opening_device : s.phase ≡ opening → s.health.device_present ≡ false
  pub counted : s.health.reopen_count ≡ length s.sleeps
  pub bounded : All (λ n. n ≤ s.reopen.max_ms) s.sleeps

publish_all-Inv :
    (accepts : RawMeta → Bool) (ms : List RawMeta) (s : Service)
    → Inv s
    → Inv (publish_all accepts ms s)
unfolding publish_all build_observation
publish_all-Inv accepts [] s h = h
publish_all-Inv accepts (m ∷ ms) s h = elim (Bool-cases (has_banned_key m)) [
  | inl banned ↦ rw (publish_all, build_observation, banned) (publish_all-Inv accepts ms s h)
  | inr clean ↦ elim (Bool-cases (accepts m)) [
    | inl good ↦
        rw (publish_all, build_observation, clean, good)
          (publish_all-Inv accepts ms (record s { published = s.published ++ (m ∷ []) })
            (ground (arith, h)))
    | inr bad ↦ rw (publish_all, build_observation, clean, bad) (ground (arith, h))
  ]
]

lose_device-Inv : (s : Service) → Inv s → Inv (lose_device s)
unfolding lose_device mark_device_absent wait_and_record increment_reopen
lose_device-Inv s h =
    let delay = next_backoff s.reopen.attempt s.reopen.initial_ms s.reopen.max_ms in
    elim (Bool-cases s.reopen.enabled) [
      | inl on ↦ rw on (record {
        running_device = λ e. cc;
        running_state = λ e. cc;
        first_attempt = λ e. cc;
        opening_device = λ e. refl;
        counted = omega (arith, h.counted, length-append s.sleeps (delay ∷ []));
        bounded =
            All-append (λ n. n ≤ s.reopen.max_ms) s.sleeps (delay ∷ []) h.bounded
              (next_backoff-le s.reopen.attempt s.reopen.initial_ms s.reopen.max_ms, tt);
      })
      | inr off ↦ rw off (ground (arith, h))
    ]

step_in-Inv :
    (accepts : RawMeta → Bool) (p : Phase) (e : Event) (s : Service)
    → s.phase ≡ p
    → Inv s
    → Inv (step_in accepts p e s)
unfolding step_in open_device read_frames mark_device_present mark_pipeline_running record_frame
    reset
step_in-Inv accepts opening (opened now) s e h = ground (arith, h)
step_in-Inv accepts opening not_found s e h = lose_device-Inv s h
step_in-Inv accepts opening (metadata now ms) s e h = h
step_in-Inv accepts opening read_error s e h = h
step_in-Inv accepts opening shutdown s e h = ground (arith, h)
step_in-Inv accepts reading (opened now) s e h = h
step_in-Inv accepts reading not_found s e h = h
step_in-Inv accepts reading (metadata now ms) s e h =
    publish_all-Inv accepts ms (record s { health = record_frame now s.health }) (ground (arith, h))
step_in-Inv accepts reading read_error s e h = lose_device-Inv s h
step_in-Inv accepts reading shutdown s e h = ground (arith, h)
step_in-Inv accepts stopped (opened now) s e h = h
step_in-Inv accepts stopped not_found s e h = h
step_in-Inv accepts stopped (metadata now ms) s e h = h
step_in-Inv accepts stopped read_error s e h = h
step_in-Inv accepts stopped shutdown s e h = ground (arith, h)

run_from-Inv :
    (accepts : RawMeta → Bool) (es : List Event) (s : Service) → Inv s → Inv (run accepts es s)
unfolding run step
run_from-Inv accepts [] s h = h
run_from-Inv accepts (e ∷ es) s h =
    run_from-Inv accepts es (step accepts e s) (step_in-Inv accepts s.phase e s refl h)

-- Whatever the driver does, while the service reads frames its health says that the device is there
-- and the pipeline runs, and the next wait is the first one; while it opens the device, that the
-- device is not there. The reopens that it counts are the sleeps it has made, none above the limit.
pub service-Inv :
    (accepts : RawMeta → Bool) (l : ReopenLoop) (es : List Event) → Inv (run accepts es (new l))
unfolding new
service-Inv accepts l es = run_from-Inv accepts es (new l) (record {
  running_device = λ e. cc;
  running_state = λ e. cc;
  first_attempt = λ e. cc;
  opening_device = λ e. refl;
  counted = refl;
  bounded = tt;
})
