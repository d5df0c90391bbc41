-- ===== src/Dashboard/Campaigns/Changes.antt =====
-- services/dashboard-api/dashboard_api/routers/campaigns.py: `update_campaign`.
use adaptive_advertisement.Common.{ℕ, String, Option, none, some, if◌then◌else◌, lookup, insert}
use adaptive_advertisement.Dashboard.Audit.{CampaignStatus, campaign_updated, changed, write_event}
use adaptive_advertisement.Dashboard.Manifests.{Response, success, http_error}
use adaptive_advertisement.Dashboard.Campaigns.{
  Campaign, Tables, CampaignOut, is_archived, build_campaign_out, get_campaign_or_404,
}

-- The text of a status: one of the four, or another.
pub data StatusText : Type 0 where
  known : CampaignStatus → StatusText
  other : StatusText

pub record CampaignUpdate : Type 0 where
  pub name : Option String
  pub description : Option String
  pub status : Option StatusText
  pub start_at : Option ℕ
  pub end_at : Option ℕ

or_old {ℓ} : {A : Type ℓ} → Option A → A → A
or_old none old = old
or_old (some a) old = a

or_kept {ℓ} : {A : Type ℓ} → Option A → Option A → Option A
or_kept none old = old
or_kept (some a) old = some a

-- The new status, with the change that the audit event tells; none is a 422.
new_status :
    Option StatusText
    → CampaignStatus
    → Option (CampaignStatus × Option (CampaignStatus × CampaignStatus))
new_status none old = some (old, none)
new_status (some (known s)) old = some (s, some (old, s))
new_status (some other) old = none

unfoldable pub update_row :
    (now : ℕ) (id : String) → CampaignUpdate → Tables → Campaign → Response CampaignOut × Tables
unfolding or_old or_kept new_status
update_row now id body t c =
    if is_archived c.status then (http_error 409, t) else elim (new_status body.status c.status) [
      | none ↦ (http_error 422, t)
      | some (s, change) ↦
          let new : Campaign = record c {
            name = or_old body.name c.name;
            description = or_kept body.description c.description;
            status = s;
            start_at = or_kept body.start_at c.start_at;
            end_at = or_kept body.end_at c.end_at;
            updated_at = now;
          } in
          (
            success (build_campaign_out id new t.campaign_manifests),
            record t {
              campaigns = insert id new t.campaigns;
              audit_events =
                  write_event now campaign_updated "campaign" id "operator"
                    (changed body.name body.description change) t.audit_events;
            },
          )
    ]

unfoldable pub update_campaign :
    (now : ℕ) (id : String) → CampaignUpdate → Tables → Response CampaignOut × Tables
unfolding update_row get_campaign_or_404
update_campaign now id body t =
    get_campaign_or_404 t (lookup id t.campaigns) (update_row now id body t)
