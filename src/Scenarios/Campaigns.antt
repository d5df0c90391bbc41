-- ===== src/Scenarios/Campaigns.antt =====
-- Two manifests are added to a campaign.
use adaptive_advertisement.Common.{none, some, List, [], ◌∷◌, All, Dict}
use adaptive_advertisement.Dashboard.Audit.{approved}
use adaptive_advertisement.Dashboard.Manifests.{Manifest}
use adaptive_advertisement.Dashboard.Campaigns.{Tables, CampaignIn}
use adaptive_advertisement.Dashboard.Campaigns.Links.{
  Request, create, add, handle_all, IsFirst, IsOnce, positions_zero,
}

abbrev no_tables : Tables
no_tables = record { campaigns = []; campaign_manifests = []; audit_events = [] }

abbrev row : Manifest
row = record {
  title = "Menu";
  status = approved;
  schema_version = "1.0.0";
  manifest_json = "{}";
  audience_tags = some [];
  rejection_reason = none;
  approved_by = some "ann";
  approved_at = some 2;
  enabled_at = none;
  created_at = 1;
  updated_at = 2;
}

abbrev rows : Dict Manifest
rows = ("menu", row) ∷ ("offer", row) ∷ []

abbrev summer : CampaignIn
summer = record { name = "Summer"; description = none; start_at = none; end_at = none }

abbrev requests : List Request
requests = create 1 "c" summer ∷ add 2 "c" "menu" rows ∷ add 3 "c" "offer" rows ∷ []

positions_zero_example :
    All IsFirst (handle_all requests no_tables).campaign_manifests
    × IsOnce (handle_all requests no_tables).campaign_manifests
positions_zero_example = positions_zero requests no_tables tt tt
