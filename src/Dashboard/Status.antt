-- ===== src/Dashboard/Status.antt =====
-- services/dashboard-api/dashboard_api/routers/system.py: what the dashboard tells of the services. Times
-- are in ms.
pub mod Reports
use Prim.Native.String
use adaptive_advertisement.Common.{
  ℕ, zero, suc, ◌-◌, ◌+◌, String, Bool, true, false, not, ◌||◌, ◌&&◌, Option, none, some, List, [],
  ◌∷◌, ltb, leb, ◌==◌, is_some, any, if◌then◌else◌,
}
use adaptive_advertisement.Decision.Signal.{Bin, child, young_adult, adult, senior}
use adaptive_advertisement.Dashboard.Manifests.{Response, success, http_error}
use adaptive_advertisement.Dashboard.SafeMode.{
  SafeModeState, SafeModeInfo, info, Store, get_or_create_safe_mode,
}
use adaptive_advertisement.Dashboard.Snapshots.{AudienceSnapshot}
use adaptive_advertisement.Dashboard.Plays.{PlayEvent}

pub data Health : Type 0 where
  healthy unhealthy unreachable : Health

-- What a probe meets: a status after a latency, a timeout, or a client error with its text.
pub data Answer : Type 0 where
  answered : (status latency_ms : ℕ) → Answer
  timed_out : Answer
  client_error : (text : String) → Answer

pub record ServiceProbe : Type 0 where
  pub status : Health
  pub latency_ms : Option ℕ
  pub is_timeout : Bool

-- `_probe_service`, without the text of the detail
unfoldable pub probe_service : Answer → ServiceProbe
probe_service (answered code latency) =
    if code == 200
    then record { status = healthy; latency_ms = some latency; is_timeout = false }
    else record { status = unhealthy; latency_ms = some latency; is_timeout = false }
probe_service timed_out = record { status = unreachable; latency_ms = none; is_timeout = true }
probe_service (client_error text) = record {
  status = unreachable;
  latency_ms = none;
  is_timeout = false;
}

-- The four probes.
pub record Probes : Type 0 where
  pub player : Answer
  pub audience_state : Answer
  pub decision_optimizer : Answer
  pub creative : Answer

pub data Overall : Type 0 where
  critical degraded healthy : Overall

unfoldable pub is_unhealthy : Health → Bool
is_unhealthy healthy = false
is_unhealthy _ = true

is_down : Answer → Bool
is_down a = is_unhealthy (probe_service a).status

unfoldable pub overall : Probes → Overall
unfolding is_down
overall p =
    if is_down p.player
    then critical
    else if is_down p.audience_state || (is_down p.decision_optimizer || is_down p.creative)
    then degraded
    else healthy

pub record SystemStatusOut : Type 0 where
  pub overall : Overall
  pub safe_mode : SafeModeInfo
  pub player : ServiceProbe
  pub audience_state : ServiceProbe
  pub decision_optimizer : ServiceProbe
  pub creative : ServiceProbe

unfoldable pub get_system_status : (now : ℕ) → Store → Probes → SystemStatusOut
get_system_status now s p = record {
  overall = overall p;
  safe_mode = info (get_or_create_safe_mode now s);
  player = probe_service p.player;
  audience_state = probe_service p.audience_state;
  decision_optimizer = probe_service p.decision_optimizer;
  creative = probe_service p.creative;
}

-- `.order_by(….desc()).limit(1)`
latest_snapshot : List AudienceSnapshot → Option AudienceSnapshot
latest_snapshot [] = none
latest_snapshot (s ∷ ss) = elim (latest_snapshot ss) [
  | none ↦ some s
  | some x ↦ if ltb s.sampled_at x.sampled_at then some x else some s
]

latest_play : List PlayEvent → Option PlayEvent
latest_play [] = none
latest_play (e ∷ es) = elim (latest_play es) [
  | none ↦ some e
  | some x ↦ if ltb e.activated_at x.activated_at then some x else some e
]

-- `now - sampled_at`, of either sign.
pub data Age : Type 0 where
  since : ℕ → Age
  ahead : ℕ → Age

age_of : (now sampled_at : ℕ) → Age
age_of now at = if leb at now then since (now - at) else ahead (at - now)

abbrev pub cv_stale_threshold_ms : ℕ
cv_stale_threshold_ms = 30_000

pub record CvLiveOut : Type 0 where
  pub available : Bool
  pub count : Option ℕ
  pub confidence : Option ℕ
  pub signal_age_ms : Option Age
  pub state_stable : Option Bool
  pub freeze_decision : Option Bool
  -- the age groups that have a value; none where there is none
  pub age_group : Bin → Option ℕ
  pub suppressed : Option Bool

is_age : Bin → Bool
is_age child = true
is_age young_adult = true
is_age adult = true
is_age senior = true
is_age _ = false

unfoldable pub cv_of : (now : ℕ) → Option AudienceSnapshot → CvLiveOut
unfolding is_age age_of
cv_of now none = record {
  available = false;
  count = none;
  confidence = none;
  signal_age_ms = none;
  state_stable = none;
  freeze_decision = none;
  age_group = λ b. none;
  suppressed = none;
}
cv_of now (some s) = record {
  available = ltb now (s.sampled_at + cv_stale_threshold_ms);
  count = some s.presence_count;
  confidence = some s.presence_confidence;
  signal_age_ms = some (age_of now s.sampled_at);
  state_stable = some s.state_stable;
  freeze_decision = some (not s.state_stable);
  age_group = λ b. if not s.demographics_suppressed && is_age b then s.bins b else none;
  suppressed = some s.demographics_suppressed;
}

pub data PlayerState : Type 0 where
  safe_mode active fallback : PlayerState

pub record PlayerLiveOut : Type 0 where
  pub available : Bool
  pub state : Option PlayerState
  pub active_manifest_id : Option String
  pub safe_mode_reason : Option String

manifest_of : Option PlayEvent → Option String
manifest_of none = none
manifest_of (some e) = some e.manifest_id

unfoldable pub player_of : SafeModeState → (available : Bool) → Option PlayEvent → PlayerLiveOut
unfolding manifest_of
player_of row available play = record {
  available = available;
  state =
      if row.is_active
      then some safe_mode
      else if available && is_some play
      then some active
      else if available
      then some fallback
      else none;
  active_manifest_id = manifest_of play;
  safe_mode_reason = if row.is_active then row.reason else none;
}

pub record LiveStatusOut : Type 0 where
  pub cv : CvLiveOut
  pub player : PlayerLiveOut

unfoldable pub get_live_status :
    (now : ℕ) → Store → List AudienceSnapshot → List PlayEvent → (player : Answer) → LiveStatusOut
unfolding latest_snapshot latest_play is_down
get_live_status now s snapshots plays player = record {
  cv = cv_of now (latest_snapshot snapshots);
  player = player_of (get_or_create_safe_mode now s) (not (is_down player)) (latest_play plays);
}

-- What the decision-optimizer answers to the relay of a reload.
pub data ReloadAnswer : Type 0 where
  reloaded : (status : ℕ) (json : String) → ReloadAnswer
  reload_error : ReloadAnswer
  -- an asyncio.TimeoutError, which is not an aiohttp.ClientError
  reload_timeout : ReloadAnswer

unfoldable pub reload_policy : ReloadAnswer → Response String
reload_policy (reloaded code json) = if code == 200 then success json else http_error 502
reload_policy reload_error = http_error 502
reload_policy reload_timeout = http_error 500
