-- ===== src/Dashboard/Plays.antt =====
-- services/dashboard-api/dashboard_api/play_event_sink.py: the player's activations into rows of the
-- table `play_events`. Times are in ms.
pub mod Attention
use Prim.Native.String
use adaptive_advertisement.Common.{
  ℕ, zero, suc, ◌+◌, String, Bool, true, false, ◌&&◌, Option, none, some, List, [], ◌∷◌, ◌++◌, ltb,
  leb, if◌then◌else◌,
}
use adaptive_advertisement.Common.Codec.{truthy}
use adaptive_advertisement.Dashboard.Snapshots.{AudienceSnapshot}

pub record Message : Type 0 where
  pub activated_at : Option String
  pub manifest_id : Option String
  pub reason : Option String
  pub prev_manifest_id : Option String

pub record PlayEvent : Type 0 where
  pub manifest_id : String
  pub activated_at : ℕ
  pub reason : Option String
  pub prev_manifest_id : Option String
  pub received_at : ℕ
  pub attention_at_trigger : Option ℕ

-- `s[:n]`
clip : ℕ → String → String
clip zero s = ""
clip (suc n) String.[] = ""
clip (suc n) (String.◌∷◌ c s) = String.◌∷◌ c (clip n s)

-- None for an absent or an empty text.
clip_some : ℕ → Option String → Option String
unfolding clip
clip_some n none = none
clip_some n (some s) = if truthy (some s) then some (clip n s) else none

event_of : (now : ℕ) → Message → Option ℕ → Option String → Option PlayEvent
unfolding clip clip_some
event_of now m none _ = none
event_of now m (some at) none = none
event_of now m (some at) (some id) = some (record {
  manifest_id = clip 128 id;
  activated_at = at;
  reason = clip_some 256 m.reason;
  prev_manifest_id = clip_some 128 m.prev_manifest_id;
  received_at = now;
  attention_at_trigger = none;
})

time_of : (fromisoformat : String → Option ℕ) → Option String → Option ℕ
time_of fromisoformat none = none
time_of fromisoformat (some s) = fromisoformat s

unfoldable pub parse_play_event :
    (fromisoformat : String → Option ℕ) (now : ℕ) → Option Message → Option PlayEvent
unfolding event_of time_of
parse_play_event fromisoformat now none = none
parse_play_event fromisoformat now (some m) =
    event_of now m (time_of fromisoformat m.activated_at) m.manifest_id

abbrev pub attention_lookup_window_ms : ℕ
attention_lookup_window_ms = 5_000

unfoldable pub is_near : (activated_at : ℕ) → AudienceSnapshot → Bool
is_near at s = leb at (s.sampled_at + attention_lookup_window_ms) && leb s.sampled_at at

newer_of : AudienceSnapshot → Option AudienceSnapshot → AudienceSnapshot
newer_of s none = s
newer_of s (some x) = if ltb s.sampled_at x.sampled_at then x else s

-- `.order_by(sampled_at.desc()).limit(1)` on the rows of the window
unfoldable pub nearest : (activated_at : ℕ) → List AudienceSnapshot → Option AudienceSnapshot
unfolding newer_of
nearest at [] = none
nearest at (s ∷ ss) =
    let rest = nearest at ss in if is_near at s then some (newer_of s rest) else rest

unfoldable pub lookup_attention_at_trigger : (activated_at : ℕ) → List AudienceSnapshot → Option ℕ
lookup_attention_at_trigger at table = elim (nearest at table) [
  | none ↦ none
  | some s ↦ s.attention_engaged
]

-- One message of `run_play_event_sink`.
record_play :
    (db_ok : Bool) → List AudienceSnapshot → Option PlayEvent → List PlayEvent → List PlayEvent
record_play db_ok snapshots none plays = plays
record_play db_ok snapshots (some e) plays =
    if db_ok
    then plays
      ++ record e { attention_at_trigger = lookup_attention_at_trigger e.activated_at snapshots }
        ∷ []
    else plays

unfoldable pub sink_play_event :
    (fromisoformat : String → Option ℕ) (now : ℕ) (db_ok : Bool)
    → List AudienceSnapshot
    → Option Message
    → List PlayEvent
    → List PlayEvent
unfolding record_play
sink_play_event fromisoformat now db_ok snapshots payload plays =
    record_play db_ok snapshots (parse_play_event fromisoformat now payload) plays
