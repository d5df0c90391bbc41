-- ===== src/Dashboard/Listings.antt =====
-- The listings of services/dashboard-api/dashboard_api: `list_manifests`, `list_campaigns`, `list_assets`,
-- `list_events` and `list_play_events`, newest first and in pages.
pub mod Pages
use adaptive_advertisement.Common.{
  ℕ, zero, suc, ◌+◌, ◌-◌, ◌*◌, ◌/◌, ◌≡◌, max, min, String, Bool, true, false, not, ◌&&◌, Option,
  none, some, List, [], ◌∷◌, map, leb, length, take, drop, filter, if◌then◌else◌, Dict, str_eq,
}
use adaptive_advertisement.Dashboard.Tags.{Tag}
use adaptive_advertisement.Dashboard.Audit.{
  ManifestStatus, draft, approved, rejected, enabled, disabled, archived, CampaignStatus, active,
  paused, EventType, manifest_created, manifest_approved, manifest_rejected, manifest_enabled,
  manifest_disabled, manifest_archived, manifest_tags_updated, manifest_rules_synced,
  campaign_created, campaign_updated, campaign_archived, campaign_manifest_added,
  campaign_manifest_removed, asset_uploaded, asset_archived, safe_mode_engaged, safe_mode_cleared,
  AuditEvent,
}
use adaptive_advertisement.Dashboard.Manifests.{Manifest, Api}
use adaptive_advertisement.Dashboard.Campaigns.{Campaign, Tables}
use adaptive_advertisement.Dashboard.Plays.{PlayEvent}
use adaptive_advertisement.Dashboard.Assets
use adaptive_advertisement.Dashboard.Assets.{Asset}

pub record Pagination : Type 0 where
  pub total : ℕ
  pub page : ℕ
  pub page_size : ℕ
  pub pages : ℕ

pub record Page {ℓ} (A : Type ℓ) : Type ℓ where
  pub items : List A
  pub pagination : Pagination

abbrev pub default_page_size : ℕ
default_page_size = 20

abbrev pub max_page_size : ℕ
max_page_size = 100

-- `min(page_size or default_page_size, max_page_size)`: 0 counts as missing.
unfoldable pub effective_size : Option ℕ → ℕ
effective_size none = default_page_size
effective_size (some zero) = default_page_size
effective_size (some (suc n)) = min (suc n) max_page_size

-- `max(1, (total + page_size - 1) // page_size)`
unfoldable pub page_count : (total page_size : ℕ) → ℕ
page_count total size = max 1 ((total + size - 1) / size)

-- `.offset((page - 1) * page_size).limit(page_size)`, with the count of the query. Pages count from 1.
unfoldable pub paginate {ℓ} : {A : Type ℓ} → (page_size : Option ℕ) (page : ℕ) → List A → Page A
paginate page_size page rows =
    let n = effective_size page_size in
    record {
      items = take n (drop ((page - 1) * n) rows);
      pagination = record {
        total = length rows;
        page = page;
        page_size = n;
        pages = page_count (length rows) n;
      };
    }

module _ {ℓ} {A : Type ℓ} where
  -- `.order_by(….desc())`
  insert_newest : (A → ℕ) → A → List A → List A
  insert_newest time a [] = a ∷ []
  insert_newest time a (x ∷ xs) =
      let rest = insert_newest time a xs in if leb (time x) (time a) then a ∷ x ∷ xs else x ∷ rest

  pub newest_first : (A → ℕ) → List A → List A
  unfolding insert_newest
  newest_first time [] = []
  newest_first time (a ∷ xs) = insert_newest time a (newest_first time xs)

-- A filter that is absent or empty keeps every row.
unfoldable pub passes : Option String → String → Bool
passes none s = true
passes (some wanted) s = if str_eq wanted "" then true else str_eq s wanted

map_items : {A B : Type 0} → (A → B) → Page A → Page B
map_items f p = record { items = map f p.items; pagination = p.pagination }

-- The texts of the statuses and of the event types in the database.
manifest_status : ManifestStatus → String
manifest_status draft = "draft"
manifest_status approved = "approved"
manifest_status rejected = "rejected"
manifest_status enabled = "enabled"
manifest_status disabled = "disabled"
manifest_status archived = "archived"

campaign_status : CampaignStatus → String
campaign_status draft = "draft"
campaign_status active = "active"
campaign_status paused = "paused"
campaign_status archived = "archived"

event_name : EventType → String
event_name manifest_created = "manifest.created"
event_name manifest_approved = "manifest.approved"
event_name manifest_rejected = "manifest.rejected"
event_name manifest_enabled = "manifest.enabled"
event_name manifest_disabled = "manifest.disabled"
event_name manifest_archived = "manifest.archived"
event_name manifest_tags_updated = "manifest.tags_updated"
event_name manifest_rules_synced = "manifest.rules_synced"
event_name campaign_created = "campaign.created"
event_name campaign_updated = "campaign.updated"
event_name campaign_archived = "campaign.archived"
event_name campaign_manifest_added = "campaign.manifest_added"
event_name campaign_manifest_removed = "campaign.manifest_removed"
event_name asset_uploaded = "asset.uploaded"
event_name asset_archived = "asset.archived"
event_name safe_mode_engaged = "safe_mode.engaged"
event_name safe_mode_cleared = "safe_mode.cleared"

pub record ManifestSummary : Type 0 where
  pub manifest_id : String
  pub title : String
  pub status : ManifestStatus
  pub schema_version : String
  pub approved_at : Option ℕ
  pub enabled_at : Option ℕ
  pub created_at : ℕ
  pub updated_at : ℕ
  pub audience_tags : Option (List Tag)

manifest_summary : (String × Manifest) → ManifestSummary
manifest_summary (id, m) = record {
  manifest_id = id;
  title = m.title;
  status = m.status;
  schema_version = m.schema_version;
  approved_at = m.approved_at;
  enabled_at = m.enabled_at;
  created_at = m.created_at;
  updated_at = m.updated_at;
  audience_tags = m.audience_tags;
}

pub list_manifests :
    (status : Option String) (page : ℕ) (page_size : Option ℕ) → Api → Page ManifestSummary
unfolding manifest_status manifest_summary map_items
list_manifests status page page_size api = map_items manifest_summary (
    paginate page_size page (
      newest_first (λ (r : String × Manifest). r.1.created_at)
        (filter (λ (r : String × Manifest). passes status (manifest_status r.1.status))
          api.manifests)))

pub record CampaignSummary : Type 0 where
  pub id : String
  pub name : String
  pub status : CampaignStatus
  pub start_at : Option ℕ
  pub end_at : Option ℕ
  pub created_at : ℕ
  pub updated_at : ℕ

campaign_summary : (String × Campaign) → CampaignSummary
campaign_summary (id, c) = record {
  id = id;
  name = c.name;
  status = c.status;
  start_at = c.start_at;
  end_at = c.end_at;
  created_at = c.created_at;
  updated_at = c.updated_at;
}

pub list_campaigns :
    (status : Option String) (page : ℕ) (page_size : Option ℕ) → Tables → Page CampaignSummary
unfolding campaign_status campaign_summary map_items
list_campaigns status page page_size t = map_items campaign_summary (
    paginate page_size page (
      newest_first (λ (r : String × Campaign). r.1.created_at)
        (filter (λ (r : String × Campaign). passes status (campaign_status r.1.status))
          t.campaigns)))

pub record AssetSummary : Type 0 where
  pub asset_id : String
  pub filename : String
  pub asset_type : String
  pub size_bytes : ℕ
  pub status : Assets.AssetStatus
  pub uploaded_at : ℕ

asset_summary : (String × Asset) → AssetSummary
asset_summary (id, a) = record {
  asset_id = id;
  filename = a.filename;
  asset_type = a.asset_type;
  size_bytes = a.size_bytes;
  status = a.status;
  uploaded_at = a.uploaded_at;
}

-- The active assets alone.
pub list_assets :
    (asset_type : Option String) (page : ℕ) (page_size : Option ℕ)
    → Assets.Store
    → Page AssetSummary
unfolding asset_summary map_items
list_assets asset_type page page_size s = map_items asset_summary (
    paginate page_size page (
      newest_first (λ (r : String × Asset). r.1.uploaded_at)
        (filter
          (λ (r : String × Asset).
            not (Assets.is_archived r.1.status) && passes asset_type r.1.asset_type)
          s.assets)))

unfoldable pub list_events :
    (event_type entity_type entity_id : Option String) (page : ℕ) (page_size : Option ℕ)
    → List AuditEvent
    → Page AuditEvent
unfolding event_name
list_events event_type entity_type entity_id page page_size log = paginate page_size page (
    newest_first (λ (e : AuditEvent). e.created_at)
      (filter
        (λ (e : AuditEvent).
          passes event_type (event_name e.event_type)
          && (passes entity_type e.entity_type && passes entity_id e.entity_id))
        log))

pub list_play_events :
    (manifest_id : Option String) (page : ℕ) (page_size : Option ℕ)
    → List PlayEvent
    → Page PlayEvent
list_play_events manifest_id page page_size plays = paginate page_size page (
    newest_first (λ (e : PlayEvent). e.activated_at)
      (filter (λ (e : PlayEvent). passes manifest_id e.manifest_id) plays))
