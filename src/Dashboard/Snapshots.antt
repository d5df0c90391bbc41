-- ===== src/Dashboard/Snapshots.antt =====
-- services/dashboard-api/dashboard_api/audience_sink.py: audience-state messages into rows of the table
-- `audience_snapshots`. Times are in ms. `fromisoformat` gives none where Python raises a ValueError.
-- The blocks of a message, where they are there, are JSON objects.
pub mod Withholding
use adaptive_advertisement.Common.{
  ℕ, String, Bool, true, false, ◌||◌, Option, none, some, List, [], ◌∷◌, ◌++◌, if◌then◌else◌,
}
use adaptive_advertisement.Decision.Signal.{Bin, Presence, Demographics, Attention, or_false}

pub record Privacy : Type 0 where
  pub contains_images : Option Bool
  pub contains_frame_urls : Option Bool
  pub contains_face_embeddings : Option Bool

pub record State : Type 0 where
  pub presence : Option Presence
  pub state_stable : Option Bool
  pub demographics : Option Demographics
  pub attention : Option Attention

pub record Message : Type 0 where
  pub privacy : Option Privacy
  pub state : Option State
  pub pipeline_degraded : Option Bool
  pub produced_at : Option String

pub record AudienceSnapshot : Type 0 where
  pub sampled_at : ℕ
  pub presence_count : ℕ
  pub presence_confidence : ℕ
  pub state_stable : Bool
  pub pipeline_degraded : Bool
  pub demographics_suppressed : Bool
  -- the columns from `age_group_child` to `attire_smart_occasion`
  pub bins : Bin → Option ℕ
  pub attention_engaged : Option ℕ

unfoldable pub is_flagged : Option Privacy → Bool
is_flagged none = false
is_flagged (some p) =
    or_false p.contains_images
    || (or_false p.contains_frame_urls || or_false p.contains_face_embeddings)

-- `demographics.get("suppressed", True)`
unfoldable pub suppressed_in : Option Demographics → Bool
suppressed_in none = true
suppressed_in (some d) = elim d.suppressed [ none ↦ true | some b ↦ b ]

bins_in : Option Demographics → Bin → Option ℕ
bins_in none b = none
bins_in (some d) b = if suppressed_in (some d) then none else d.bins b

engaged_in : Option Attention → Option ℕ
engaged_in none = none
engaged_in (some a) = a.engaged

or_empty : Option String → String
or_empty none = ""
or_empty (some s) = s

row_of : Message → ℕ → State → Option Presence → Option AudienceSnapshot
unfolding bins_in engaged_in
row_of m at s none = none
row_of m at s (some p) = some (record {
  sampled_at = at;
  presence_count = p.count;
  presence_confidence = p.confidence;
  state_stable = or_false s.state_stable;
  pipeline_degraded = or_false m.pipeline_degraded;
  demographics_suppressed = suppressed_in s.demographics;
  bins = bins_in s.demographics;
  attention_engaged = engaged_in s.attention;
})

-- A missing key is a KeyError, and drops the message.
snapshot_of : Message → Option ℕ → Option State → Option AudienceSnapshot
unfolding row_of
snapshot_of m at none = none
snapshot_of m none (some s) = none
snapshot_of m (some at) (some s) = row_of m at s s.presence

-- `none` in front is a payload that is not JSON.
unfoldable pub parse_snapshot :
    (fromisoformat : String → Option ℕ) → Option Message → Option AudienceSnapshot
unfolding snapshot_of or_empty
parse_snapshot fromisoformat none = none
parse_snapshot fromisoformat (some m) =
    if is_flagged m.privacy
    then none
    else snapshot_of m (fromisoformat (or_empty m.produced_at)) m.state

-- A payload, and whether its row can be committed.
pub record Delivery : Type 0 where
  pub payload : Option Message
  pub db_ok : Bool

store : Option AudienceSnapshot → Bool → List AudienceSnapshot → List AudienceSnapshot
store none ok table = table
store (some s) ok table = if ok then table ++ s ∷ [] else table

-- The loop over the messages of `run_audience_sink`.
unfoldable pub run_audience_sink :
    (fromisoformat : String → Option ℕ)
    → List Delivery
    → List AudienceSnapshot
    → List AudienceSnapshot
unfolding store
run_audience_sink fromisoformat [] table = table
run_audience_sink fromisoformat (d ∷ ds) table =
    run_audience_sink fromisoformat ds
      (store (parse_snapshot fromisoformat d.payload) d.db_ok table)
