-- ===== src/Dashboard/Campaigns/Views.antt =====
-- What services/dashboard-api/dashboard_api reads of a campaign: `get_campaign` of routers/campaigns.py, and
-- the summary of its impressions of routers/analytics.py from the table of the links.
use adaptive_advertisement.Common.{
  String, none, some, List, [], ◌∷◌, str_eq, is_some, ◌&&◌, Dict, lookup, if◌then◌else◌, ℕ,
}
use adaptive_advertisement.Dashboard.Manifests.{Manifest, Response, success, http_error}
use adaptive_advertisement.Dashboard.Campaigns.{
  CampaignManifest, Tables, CampaignOut, build_campaign_out,
}
use adaptive_advertisement.Dashboard.Plays.{PlayEvent}
use adaptive_advertisement.Dashboard.Analytics.{CampaignAnalyticsOut, get_campaign_analytics}

unfoldable pub get_campaign : (campaign_id : String) → Tables → Response CampaignOut
get_campaign id t = elim (lookup id t.campaigns) [
  | none ↦ http_error 404
  | some c ↦ success (build_campaign_out id c t.campaign_manifests)
]

-- The join of `manifests` with the links of the campaign.
unfoldable pub joined_ids : String → Dict Manifest → List CampaignManifest → List String
joined_ids id manifests [] = []
joined_ids id manifests (l ∷ ls) =
    let rest = joined_ids id manifests ls in
    if str_eq l.campaign_id id && is_some (lookup l.manifest_id manifests)
    then l.manifest_id ∷ rest
    else rest

pub record CampaignSummaryOut : Type 0 where
  pub campaign_id : String
  pub campaign_name : String
  pub summary : CampaignAnalyticsOut

unfoldable pub summarise_campaign :
    (scale : ℕ) (campaign_id : String)
    → Tables
    → Dict Manifest
    → List PlayEvent
    → Response CampaignSummaryOut
summarise_campaign scale id t manifests plays = elim (lookup id t.campaigns) [
  | none ↦ http_error 404
  | some c ↦ success (record {
    campaign_id = id;
    campaign_name = c.name;
    summary = get_campaign_analytics scale (joined_ids id manifests t.campaign_manifests) plays;
  })
]
