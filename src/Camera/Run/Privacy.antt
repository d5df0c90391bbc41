-- ===== src/Camera/Run/Privacy.antt =====
-- What reaches the broker.
use adaptive_advertisement.Common.{
  ◌≡◌, inl, inr, Bool, false, Bool-cases, List, [], ◌∷◌, ◌++◌, All, All-append,
}
use adaptive_advertisement.Camera.Reopen.{ReopenLoop}
use adaptive_advertisement.Camera.Run.{
  RawMeta, has_banned_key, build_observation, Phase, opening, reading, stopped, Service, new, Event,
  opened, not_found, metadata, read_error, shutdown, publish_all, lose_device, open_device,
  read_frames, step_in, step, run,
}

abbrev pub IsClean : List RawMeta → Type 0
IsClean ms = All (λ m. has_banned_key m ≡ false) ms

publish_all-IsClean :
    (accepts : RawMeta → Bool) (ms : List RawMeta) (s : Service)
    → IsClean s.published
    → IsClean (publish_all accepts ms s).published
unfolding publish_all build_observation
publish_all-IsClean accepts [] s h = h
publish_all-IsClean accepts (m ∷ ms) s h = elim (Bool-cases (has_banned_key m)) [
  | inl banned ↦ rw (publish_all, build_observation, banned) (publish_all-IsClean accepts ms s h)
  | inr clean ↦ elim (Bool-cases (accepts m)) [
    | inl good ↦
        rw (publish_all, build_observation, clean, good)
          (publish_all-IsClean accepts ms (record s { published = s.published ++ (m ∷ []) })
            (All-append (λ x. has_banned_key x ≡ false) s.published (m ∷ []) h (clean, tt)))
    | inr bad ↦ rw (publish_all, build_observation, clean, bad) h
  ]
]

lose_device-IsClean : (s : Service) → IsClean s.published → IsClean (lose_device s).published
unfolding lose_device
lose_device-IsClean s h = elim (Bool-cases s.reopen.enabled) [
  | inl on ↦ rw on h
  | inr off ↦ rw off h
]

step_in-IsClean :
    (accepts : RawMeta → Bool) (p : Phase) (e : Event) (s : Service)
    → IsClean s.published
    → IsClean (step_in accepts p e s).published
unfolding step_in open_device read_frames
step_in-IsClean accepts opening (opened now) s h = h
step_in-IsClean accepts opening not_found s h = lose_device-IsClean s h
step_in-IsClean accepts opening (metadata now ms) s h = h
step_in-IsClean accepts opening read_error s h = h
step_in-IsClean accepts opening shutdown s h = h
step_in-IsClean accepts reading (opened now) s h = h
step_in-IsClean accepts reading not_found s h = h
step_in-IsClean accepts reading (metadata now ms) s h = publish_all-IsClean accepts ms _ h
step_in-IsClean accepts reading read_error s h = lose_device-IsClean s h
step_in-IsClean accepts reading shutdown s h = h
step_in-IsClean accepts stopped (opened now) s h = h
step_in-IsClean accepts stopped not_found s h = h
step_in-IsClean accepts stopped (metadata now ms) s h = h
step_in-IsClean accepts stopped read_error s h = h
step_in-IsClean accepts stopped shutdown s h = h

run-IsClean :
    (accepts : RawMeta → Bool) (es : List Event) (s : Service)
    → IsClean s.published
    → IsClean (run accepts es s).published
unfolding run step
run-IsClean accepts [] s h = h
run-IsClean accepts (e ∷ es) s h =
    run-IsClean accepts es (step accepts e s) (step_in-IsClean accepts s.phase e s h)

-- Whatever the driver does and whatever metadata it gives, nothing that is published is made of
-- metadata with a banned key at its top level.
pub published-IsClean :
    (accepts : RawMeta → Bool) (l : ReopenLoop) (es : List Event)
    → IsClean (run accepts es (new l)).published
unfolding new
published-IsClean accepts l es = run-IsClean accepts es (new l) tt
