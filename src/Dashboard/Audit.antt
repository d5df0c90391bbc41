-- ===== src/Dashboard/Audit.antt =====
-- services/dashboard-api/dashboard_api/events.py: the append-only log of the operator's actions.
use adaptive_advertisement.Common.{ℕ, String, Bool, Option, List, [], ◌∷◌, ◌++◌}
use adaptive_advertisement.Dashboard.Tags.{Tag}

pub data ManifestStatus : Type 0 where
  draft approved rejected enabled disabled archived : ManifestStatus

pub data CampaignStatus : Type 0 where
  draft active paused archived : CampaignStatus

-- The canonical event types.
pub data EventType : Type 0 where
  manifest_created manifest_approved manifest_rejected : EventType
  manifest_enabled manifest_disabled manifest_archived : EventType
  manifest_tags_updated manifest_rules_synced : EventType
  campaign_created campaign_updated campaign_archived : EventType
  campaign_manifest_added campaign_manifest_removed : EventType
  asset_uploaded asset_archived : EventType
  safe_mode_engaged safe_mode_cleared : EventType

pub data Payload : Type 0 where
  empty : Payload
  created : (title schema_version : String) (audience_tags : List Tag) → Payload
  previous_status : ManifestStatus → Payload
  previous_status_reason : ManifestStatus → (reason : String) → Payload
  tags : (old_tags new_tags : List Tag) → Payload
  synced :
      (enabled_manifest_count generated_rule_count : ℕ) (has_fallback reloaded : Bool) → Payload
  name : String → Payload
  changed : (name description : Option String) → Option (CampaignStatus × CampaignStatus) → Payload
  previous_campaign_status : CampaignStatus → Payload
  manifest_id : String → Payload
  reason : String → Payload
  uploaded : (filename asset_type : String) (size_bytes : ℕ) → Payload
  filename : String → Payload

pub record AuditEvent : Type 0 where
  pub event_type : EventType
  pub entity_type : String
  pub entity_id : String
  pub actor : String
  pub payload : Payload
  pub created_at : ℕ

-- `write_event`. The actor is "operator" unless the caller gives another.
unfoldable pub write_event :
    (now : ℕ) (event_type : EventType) (entity_type entity_id actor : String)
    → Payload
    → List AuditEvent
    → List AuditEvent
write_event now event_type entity_type entity_id actor payload log =
    log
    ++ record {
      event_type = event_type;
      entity_type = entity_type;
      entity_id = entity_id;
      actor = actor;
      payload = payload;
      created_at = now;
    }
      ∷ []
