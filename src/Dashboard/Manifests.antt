-- ===== src/Dashboard/Manifests.antt =====
-- services/dashboard-api/dashboard_api/routers/manifests.py: the approval workflow. The table of the
-- manifests goes by its unique key `manifest_id`, and so does the output directory: the name of a file
-- is the key with ".json". A commit succeeds; a disk operation may fail.
pub mod Requests
pub mod Moves
pub mod Approval
pub mod Files
pub mod Sync
pub mod Views
use adaptive_advertisement.Common.{
  ℕ, zero, suc, String, Bool, true, false, not, Option, none, some, List, [], ◌∷◌, ◌++◌, map, leb,
  length, filter, if◌then◌else◌, Dict, lookup, insert, is_some, str_eq,
}
use adaptive_advertisement.Decision.Policy.{RulesFile}
use adaptive_advertisement.Dashboard.Tags.{Tag}
use adaptive_advertisement.Dashboard.Rules.{Tagged}
use adaptive_advertisement.Dashboard.Rules.Generate.{build_rules, has_fallback, build_rules_file}
use adaptive_advertisement.Dashboard.Audit.{
  ManifestStatus, draft, approved, rejected, enabled, disabled, archived, EventType,
  manifest_created, manifest_approved, manifest_rejected, manifest_enabled, manifest_disabled,
  manifest_archived, manifest_tags_updated, manifest_rules_synced, Payload, empty, created,
  previous_status, previous_status_reason, tags, synced, AuditEvent, write_event,
}

-- A row without its keys. The JSON document is its text.
pub record Manifest : Type 0 where
  pub title : String
  pub status : ManifestStatus
  pub schema_version : String
  pub manifest_json : String
  pub audience_tags : Option (List Tag)
  pub rejection_reason : Option String
  pub approved_by : Option String
  pub approved_at : Option ℕ
  pub enabled_at : Option ℕ
  pub created_at : ℕ
  pub updated_at : ℕ

pub record Api : Type 0 where
  pub manifests : Dict Manifest
  pub audit_events : List AuditEvent
  -- the files of MANIFEST_OUTPUT_DIR
  pub disk : Dict String
  -- the file at `rules_output_path`
  pub rules_file : Option RulesFile

pub data Response {ℓ} (A : Type ℓ) : Type ℓ where
  success : A → Response A
  http_error : (status_code : ℕ) → Response A

-- `_VALID_TRANSITIONS` and `_can_transition`
unfoldable pub can_transition : ManifestStatus → ManifestStatus → Bool
can_transition draft approved = true
can_transition draft rejected = true
can_transition draft archived = true
can_transition approved enabled = true
can_transition approved rejected = true
can_transition approved archived = true
can_transition rejected approved = true
can_transition rejected archived = true
can_transition enabled disabled = true
can_transition enabled archived = true
can_transition disabled enabled = true
can_transition disabled archived = true
can_transition _ _ = false

-- `unlink`
unfoldable pub remove : {A : Type 0} → String → Dict A → Dict A
remove k [] = []
remove k ((j, v) ∷ d) = let rest = remove k d in if str_eq j k then rest else (j, v) ∷ rest

-- A failure is logged only.
unfoldable pub write_manifest_to_disk :
    (disk_ok : Bool) → String → Manifest → Dict String → Dict String
write_manifest_to_disk disk_ok id m disk = if disk_ok then insert id m.manifest_json disk else disk

unfoldable pub remove_manifest_from_disk : (disk_ok : Bool) → String → Dict String → Dict String
remove_manifest_from_disk disk_ok id disk = if disk_ok then remove id disk else disk

-- `_get_manifest_or_404`, and then the rest of the handler.
get_manifest_or_404 {ℓ} :
    {A : Type ℓ} → Api → Option Manifest → (Manifest → Response A × Api) → Response A × Api
get_manifest_or_404 api none rest = (http_error 404, api)
get_manifest_or_404 api (some m) rest = rest m

-- The row with its new values, and the event.
saved : Api → String → Manifest → List AuditEvent → Response Manifest × Api
saved api id m log =
    (success m, record api { manifests = insert id m api.manifests; audit_events = log })

pub record ManifestIn : Type 0 where
  pub manifest_id : String
  pub title : String
  pub schema_version : String
  pub manifest_json : String
  pub audience_tags : List Tag

unfoldable pub create_manifest : (now : ℕ) → ManifestIn → Api → Response Manifest × Api
unfolding saved
create_manifest now body api =
    if is_some (lookup body.manifest_id api.manifests)
    then (http_error 409, api)
    else saved api body.manifest_id
        (record {
          title = body.title;
          status = draft;
          schema_version = body.schema_version;
          manifest_json = body.manifest_json;
          audience_tags = some body.audience_tags;
          rejection_reason = none;
          approved_by = none;
          approved_at = none;
          enabled_at = none;
          created_at = now;
          updated_at = now;
        })
        (write_event now manifest_created "manifest" body.manifest_id "operator"
          (created body.title body.schema_version body.audience_tags) api.audit_events)

approve_row : (now : ℕ) (id approved_by : String) → Api → Manifest → Response Manifest × Api
unfolding saved
approve_row now id by api m =
    if can_transition m.status approved
    then saved api id
        (record m {
          status = approved;
          approved_by = some by;
          approved_at = some now;
          rejection_reason = none;
          updated_at = now;
        })
        (write_event now manifest_approved "manifest" id by (previous_status m.status)
          api.audit_events)
    else (http_error 409, api)

unfoldable pub approve_manifest :
    (now : ℕ) (id approved_by : String) → Api → Response Manifest × Api
unfolding approve_row get_manifest_or_404
approve_manifest now id by api =
    get_manifest_or_404 api (lookup id api.manifests) (approve_row now id by api)

reject_row : (now : ℕ) (id rejected_by reason : String) → Api → Manifest → Response Manifest × Api
unfolding saved
reject_row now id by reason api m =
    if can_transition m.status rejected
    then saved api id
        (record m { status = rejected; rejection_reason = some reason; updated_at = now })
        (write_event now manifest_rejected "manifest" id by (previous_status_reason m.status reason)
          api.audit_events)
    else (http_error 409, api)

unfoldable pub reject_manifest :
    (now : ℕ) (id rejected_by reason : String) → Api → Response Manifest × Api
unfolding reject_row get_manifest_or_404
reject_manifest now id by reason api =
    get_manifest_or_404 api (lookup id api.manifests) (reject_row now id by reason api)

enable_row : (now : ℕ) (disk_ok : Bool) (id : String) → Api → Manifest → Response Manifest × Api
unfolding saved
enable_row now disk_ok id api m =
    let row = record m { status = enabled; enabled_at = some now; updated_at = now } in
    if can_transition m.status enabled
    then saved (record api { disk = write_manifest_to_disk disk_ok id row api.disk }) id row
        (write_event now manifest_enabled "manifest" id "operator" (previous_status m.status)
          api.audit_events)
    else (http_error 409, api)

unfoldable pub enable_manifest :
    (now : ℕ) (disk_ok : Bool) (id : String) → Api → Response Manifest × Api
unfolding enable_row get_manifest_or_404
enable_manifest now disk_ok id api =
    get_manifest_or_404 api (lookup id api.manifests) (enable_row now disk_ok id api)

disable_row : (now : ℕ) (disk_ok : Bool) (id : String) → Api → Manifest → Response Manifest × Api
unfolding saved
disable_row now disk_ok id api m =
    if can_transition m.status disabled
    then saved (record api { disk = remove_manifest_from_disk disk_ok id api.disk }) id
        (record m { status = disabled; updated_at = now })
        (write_event now manifest_disabled "manifest" id "operator" empty api.audit_events)
    else (http_error 409, api)

unfoldable pub disable_manifest :
    (now : ℕ) (disk_ok : Bool) (id : String) → Api → Response Manifest × Api
unfolding disable_row get_manifest_or_404
disable_manifest now disk_ok id api =
    get_manifest_or_404 api (lookup id api.manifests) (disable_row now disk_ok id api)

-- `list(m.audience_tags or [])`
unfoldable pub or_no_tags : Option (List Tag) → List Tag
or_no_tags none = []
or_no_tags (some ts) = ts

unfoldable pub is_archived : ManifestStatus → Bool
is_archived archived = true
is_archived _ = false

tags_row : (now : ℕ) (id : String) → List Tag → Api → Manifest → Response Manifest × Api
unfolding saved
tags_row now id new_tags api m =
    if is_archived m.status
    then (http_error 409, api)
    else saved api id (record m { audience_tags = some new_tags; updated_at = now })
        (write_event now manifest_tags_updated "manifest" id "operator"
          (tags (or_no_tags m.audience_tags) new_tags) api.audit_events)

unfoldable pub update_manifest_tags :
    (now : ℕ) (id : String) → List Tag → Api → Response Manifest × Api
unfolding tags_row get_manifest_or_404
update_manifest_tags now id new_tags api =
    get_manifest_or_404 api (lookup id api.manifests) (tags_row now id new_tags api)

unfoldable pub is_enabled : ManifestStatus → Bool
is_enabled enabled = true
is_enabled _ = false

archive_row : (now : ℕ) (disk_ok : Bool) (id : String) → Api → Manifest → Response Manifest × Api
unfolding saved is_enabled
archive_row now disk_ok id api m =
    if can_transition m.status archived
    then saved
        (record api {
          disk =
              if is_enabled m.status
              then remove_manifest_from_disk disk_ok id api.disk
              else api.disk;
        })
        id (record m { status = archived; updated_at = now })
        (write_event now manifest_archived "manifest" id "operator" (previous_status m.status)
          api.audit_events)
    else (http_error 409, api)

unfoldable pub archive_manifest :
    (now : ℕ) (disk_ok : Bool) (id : String) → Api → Response Manifest × Api
unfolding archive_row get_manifest_or_404
archive_manifest now disk_ok id api =
    get_manifest_or_404 api (lookup id api.manifests) (archive_row now disk_ok id api)
