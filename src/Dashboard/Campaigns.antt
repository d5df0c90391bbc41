-- ===== src/Dashboard/Campaigns.antt =====
-- services/dashboard-api/dashboard_api/routers/campaigns.py: campaigns and the order of their
-- manifests. A link names a manifest by its unique `manifest_id`. A request that is answered with an
-- error commits nothing.
pub mod Changes
pub mod Links
pub mod Views
use adaptive_advertisement.Common.{
  ℕ, zero, suc, ◌+◌, String, Bool, true, false, not, ◌&&◌, ◌||◌, Option, none, some, List, [], ◌∷◌,
  ◌++◌, max, leb, if◌then◌else◌, Dict, lookup, insert, str_eq, any, filter, is_some,
}
use adaptive_advertisement.Dashboard.Audit.{
  CampaignStatus, draft, active, paused, archived, ManifestStatus, campaign_created,
  campaign_updated, campaign_archived, campaign_manifest_added, campaign_manifest_removed, name,
  changed, previous_campaign_status, manifest_id, AuditEvent, write_event,
}
use adaptive_advertisement.Dashboard.Manifests.{Manifest, Response, success, http_error}

pub record Campaign : Type 0 where
  pub name : String
  pub description : Option String
  pub status : CampaignStatus
  pub start_at : Option ℕ
  pub end_at : Option ℕ
  pub created_at : ℕ
  pub updated_at : ℕ

pub record CampaignManifest : Type 0 where
  pub campaign_id : String
  pub manifest_id : String
  pub position : ℕ

pub record Tables : Type 0 where
  pub campaigns : Dict Campaign
  pub campaign_manifests : List CampaignManifest
  pub audit_events : List AuditEvent

-- `m.status in _ACTIVATABLE_MANIFEST_STATUSES`
unfoldable pub is_activatable : ManifestStatus → Bool
is_activatable ManifestStatus.approved = true
is_activatable ManifestStatus.enabled = true
is_activatable _ = false

unfoldable pub is_archived : CampaignStatus → Bool
is_archived archived = true
is_archived _ = false

unfoldable pub is_link : String → String → CampaignManifest → Bool
is_link c m l = str_eq l.campaign_id c && str_eq l.manifest_id m

-- `select(func.max(CampaignManifest.position))`, none where there is no row
unfoldable pub max_position : String → List CampaignManifest → Option ℕ
max_position c [] = none
max_position c (l ∷ ls) =
    let rest = max_position c ls in
    if str_eq l.campaign_id c
    then some (elim rest [ none ↦ l.position | some p ↦ max l.position p ])
    else rest

-- `(… or -1) + 1`: 0 counts as false.
unfoldable pub next_position : Option ℕ → ℕ
next_position none = 0
next_position (some zero) = 0
next_position (some (suc p)) = suc p + 1

insert_link : CampaignManifest → List CampaignManifest → List CampaignManifest
insert_link l [] = l ∷ []
insert_link l (x ∷ xs) =
    let rest = insert_link l xs in if leb l.position x.position then l ∷ x ∷ xs else x ∷ rest

ids_of : List CampaignManifest → List String
ids_of [] = []
ids_of (l ∷ ls) = l.manifest_id ∷ ids_of ls

by_position : List CampaignManifest → List CampaignManifest
unfolding insert_link
by_position [] = []
by_position (l ∷ ls) = insert_link l (by_position ls)

pub record CampaignOut : Type 0 where
  pub campaign : Campaign
  pub manifest_ids : List String

-- `_build_campaign_out`
unfoldable pub build_campaign_out : String → Campaign → List CampaignManifest → CampaignOut
unfolding ids_of by_position
build_campaign_out id c links = record {
  campaign = c;
  manifest_ids = ids_of (by_position (filter (λ l. str_eq l.campaign_id id) links));
}

-- `_get_campaign_or_404`, and then the rest of the handler.
get_campaign_or_404 :
    Tables
    → Option Campaign
    → (Campaign → Response CampaignOut × Tables)
    → Response CampaignOut × Tables
get_campaign_or_404 t none rest = (http_error 404, t)
get_campaign_or_404 t (some c) rest = rest c

pub record CampaignIn : Type 0 where
  pub name : String
  pub description : Option String
  pub start_at : Option ℕ
  pub end_at : Option ℕ

-- `id` is the new UUID.
unfoldable pub create_campaign :
    (now : ℕ) (id : String) → CampaignIn → Tables → Response CampaignOut × Tables
create_campaign now id body t =
    let c : Campaign = record {
      name = body.name;
      description = body.description;
      status = draft;
      start_at = body.start_at;
      end_at = body.end_at;
      created_at = now;
      updated_at = now;
    } in
    (
      success (build_campaign_out id c t.campaign_manifests),
      record t {
        campaigns = insert id c t.campaigns;
        audit_events =
            write_event now campaign_created "campaign" id "operator" (name body.name)
              t.audit_events;
      },
    )

linked : (now : ℕ) (id mid : String) → Tables → Campaign → Response CampaignOut × Tables
linked now id mid t c =
    let links =
      t.campaign_manifests
      ++ record {
        campaign_id = id;
        manifest_id = mid;
        position = next_position (max_position id t.campaign_manifests);
      }
        ∷ [] in
    if any (is_link id mid) t.campaign_manifests
    then (success (build_campaign_out id c t.campaign_manifests), t)
    else (
      success (build_campaign_out id c links),
      record t {
        campaign_manifests = links;
        audit_events =
            write_event now campaign_manifest_added "campaign" id "operator" (manifest_id mid)
              t.audit_events;
      },
    )

add_found :
    (now : ℕ) (id mid : String)
    → Tables
    → Campaign
    → Option Manifest
    → Response CampaignOut × Tables
unfolding linked
add_found now id mid t c none = (http_error 404, t)
add_found now id mid t c (some m) =
    if is_activatable m.status then linked now id mid t c else (http_error 409, t)

-- The table of the manifests is only read.
unfoldable pub add_manifest_to_campaign :
    (now : ℕ) (id mid : String) → Dict Manifest → Tables → Response CampaignOut × Tables
unfolding add_found get_campaign_or_404
add_manifest_to_campaign now id mid manifests t =
    get_campaign_or_404 t (lookup id t.campaigns) (λ c.
      if is_archived c.status
      then (http_error 409, t)
      else add_found now id mid t c (lookup mid manifests))

remove_found :
    (now : ℕ) (id mid : String)
    → Tables
    → Campaign
    → Option Manifest
    → Response CampaignOut × Tables
remove_found now id mid t c none = (http_error 404, t)
remove_found now id mid t c (some m) =
    let links = filter (λ l. not (is_link id mid l)) t.campaign_manifests in
    if any (is_link id mid) t.campaign_manifests
    then (
      success (build_campaign_out id c links),
      record t {
        campaign_manifests = links;
        audit_events =
            write_event now campaign_manifest_removed "campaign" id "operator" (manifest_id mid)
              t.audit_events;
      },
    )
    else (http_error 404, t)

unfoldable pub remove_manifest_from_campaign :
    (now : ℕ) (id mid : String) → Dict Manifest → Tables → Response CampaignOut × Tables
unfolding remove_found get_campaign_or_404
remove_manifest_from_campaign now id mid manifests t =
    get_campaign_or_404 t (lookup id t.campaigns)
      (λ c. remove_found now id mid t c (lookup mid manifests))

unfoldable pub archive_campaign : (now : ℕ) (id : String) → Tables → Response CampaignOut × Tables
unfolding get_campaign_or_404
archive_campaign now id t = get_campaign_or_404 t (lookup id t.campaigns) (λ c.
    let new : Campaign = record c { status = archived; updated_at = now } in
    if is_archived c.status then (http_error 409, t) else (
      success (build_campaign_out id new t.campaign_manifests),
      record t {
        campaigns = insert id new t.campaigns;
        audit_events =
            write_event now campaign_archived "campaign" id "operator"
              (previous_campaign_status c.status) t.audit_events;
      },
    ))
