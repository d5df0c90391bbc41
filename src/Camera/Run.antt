-- ===== src/Camera/Run.antt =====
-- services/input-cv/input_cv/main.py: the loop of `run`, with the privacy check of
-- services/input-cv/input_cv/observation/builder.py. What the driver does is an event; the model
-- classes of the pydantic package are a parameter, which may refuse the values (`none`).
pub mod Privacy
pub mod Phases
use adaptive_advertisement.Common.{
  ℕ, String, Bool, true, false, ◌||◌, Option, none, some, List, [], ◌∷◌, ◌++◌, any, if◌then◌else◌,
  str_eq,
}
use adaptive_advertisement.Camera.Tracker
use adaptive_advertisement.Camera.Tracker.{
  HealthTracker, mark_device_present, mark_device_absent, mark_pipeline_running, record_frame,
}
use adaptive_advertisement.Camera.Reopen.{ReopenLoop, wait_and_record, reset}

-- `BANNED_METADATA_KEYS`
abbrev pub banned_metadata_keys : List String
banned_metadata_keys =
    "frame" ∷ "image" ∷ "pixels" ∷ "pixel" ∷ "base64" ∷ "embedding" ∷ "embeddings" ∷ "face"
    ∷ "faces" ∷ "raw" ∷ "blob" ∷ "jpeg" ∷ "png" ∷ "thumbnail" ∷ "snapshot" ∷ "frame_url" ∷ "video"
    ∷ "clip" ∷ []

-- The metadata of one frame: its keys, and what stands under them.
pub record RawMeta : Type 0 where
  pub keys : List String
  pub values : List ℕ

unfoldable pub has_banned_key : RawMeta → Bool
has_banned_key m = any (λ k. any (λ b. str_eq b k) banned_metadata_keys) m.keys

-- How `build_observation` ends. The fields that an observation copies of its metadata are left out: it
-- stands for the metadata that it is made of.
pub data Built : Type 0 where
  privacy_violation invalid : Built
  built : RawMeta → Built

unfoldable pub build_observation : (RawMeta → Bool) → RawMeta → Built
unfolding has_banned_key
build_observation accepts m =
    if has_banned_key m then privacy_violation else if accepts m then built m else invalid

pub data Phase : Type 0 where
  opening reading stopped : Phase

pub record Service : Type 0 where
  pub phase : Phase
  pub health : HealthTracker
  pub reopen : ReopenLoop
  pub published : List RawMeta
  pub sleeps : List ℕ

unfoldable pub new : ReopenLoop → Service
new l = record { phase = opening; health = Tracker.new; reopen = l; published = []; sleeps = [] }

-- What the driver, or a signal of the system, does next.
pub data Event : Type 0 where
  opened : (now : ℕ) → Event
  not_found : Event
  metadata : (now : ℕ) → List RawMeta → Event
  read_error : Event
  shutdown : Event

-- A violation is skipped; any other exception ends the service.
unfoldable pub publish_all : (RawMeta → Bool) → List RawMeta → Service → Service
unfolding build_observation
publish_all accepts [] s = s
publish_all accepts (m ∷ ms) s = elim (build_observation accepts m) [
  | privacy_violation ↦ publish_all accepts ms s
  | invalid ↦ record s { phase = stopped }
  | built o ↦ publish_all accepts ms (record s { published = s.published ++ (o ∷ []) })
]

-- The device is not there: wait for the next attempt, or give up.
unfoldable pub lose_device : Service → Service
unfolding mark_device_absent wait_and_record
lose_device s =
    let h = mark_device_absent s.health in
    if s.reopen.enabled
    then (let (l, h', delay) = wait_and_record s.reopen h in
        record s { phase = opening; health = h'; reopen = l; sleeps = s.sleeps ++ (delay ∷ []) })
    else record s { phase = stopped; health = h }

unfoldable pub open_device : (now : ℕ) → Service → Service
unfolding mark_device_present mark_pipeline_running reset
open_device now s = record s {
  phase = reading;
  health = mark_pipeline_running now (mark_device_present s.health);
  reopen = reset s.reopen;
}

unfoldable pub read_frames : (RawMeta → Bool) → (now : ℕ) → List RawMeta → Service → Service
unfolding record_frame publish_all
read_frames accepts now ms s =
    publish_all accepts ms (record s { health = record_frame now s.health })

-- One event, where the loop waits for it; any other cannot come and changes nothing.
step_in : (RawMeta → Bool) → Phase → Event → Service → Service
unfolding open_device lose_device read_frames
step_in accepts opening (opened now) s = open_device now s
step_in accepts opening not_found s = lose_device s
step_in accepts reading (metadata now ms) s = read_frames accepts now ms s
step_in accepts reading read_error s = lose_device s
step_in accepts _ shutdown s = record s { phase = stopped }
step_in accepts _ _ s = s

unfoldable pub step : (RawMeta → Bool) → Event → Service → Service
unfolding step_in
step accepts e s = step_in accepts s.phase e s

unfoldable pub run : (RawMeta → Bool) → List Event → Service → Service
unfolding step
run accepts [] s = s
run accepts (e ∷ es) s = run accepts es (step accepts e s)
