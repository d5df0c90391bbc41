-- ===== src/Scenarios/Approvals.antt =====
-- Requests on the manifests, from registration to the screen's rules.
use adaptive_advertisement.Common.{◌≡◌, refl, true, false, some, none, List, [], ◌∷◌, lookup}
use adaptive_advertisement.Dashboard.Tags.{general, time_lunch, audience, time}
use adaptive_advertisement.Dashboard.Audit.{archived}
use adaptive_advertisement.Dashboard.Manifests.{Manifest, Api, ManifestIn}
use adaptive_advertisement.Dashboard.Manifests.Requests.{
  Request, create, approve, reject, enable, update_tags, handle, handle_all,
}
use adaptive_advertisement.Dashboard.Manifests.Approval.{
  AllApprovedFirst, approval_not_bypassed, archived_final, Audited, handle-Audited,
}
use adaptive_advertisement.Dashboard.Manifests.Files.{FilesMatch, handle_all-FilesMatch}
use adaptive_advertisement.Dashboard.Manifests.Sync.{sync_rules}
use adaptive_advertisement.System.Targeting.{Shows, synced_answers_approved}
use adaptive_advertisement.Scenarios.Policies.{signal_of, first}

abbrev empty_api : Api
empty_api = record { manifests = []; audit_events = []; disk = []; rules_file = none }

abbrev menu : ManifestIn
menu = record {
  manifest_id = "menu";
  title = "Menu";
  schema_version = "1.0.0";
  manifest_json = "{}";
  audience_tags = audience general ∷ time time_lunch ∷ [];
}

abbrev requests : List Request
requests =
    create 1 menu
    ∷ approve 2 "menu" "ann"
    ∷ enable 3 true "menu"
    ∷ update_tags 4 "menu" []
    ∷ reject 5 "menu" "bob" "late"
    ∷ []

approval_not_bypassed_example : AllApprovedFirst (handle_all requests empty_api).manifests
unfolding lookup
approval_not_bypassed_example = approval_not_bypassed requests empty_api (λ id m e. cc)

abbrev old_menu : Manifest
old_menu = record {
  title = "Menu";
  status = archived;
  schema_version = "1.0.0";
  manifest_json = "{}";
  audience_tags = some [];
  rejection_reason = none;
  approved_by = some "ann";
  approved_at = some 2;
  enabled_at = some 3;
  created_at = 1;
  updated_at = 9;
}

abbrev archived_api : Api
archived_api = record empty_api { manifests = ("menu", old_menu) ∷ [] }

archived_final_example : lookup "menu" (handle_all requests archived_api).manifests ≡ some old_menu
unfolding lookup
archived_final_example = archived_final requests archived_api "menu" old_menu refl refl

handle-Audited_example :
    Audited archived_api
      (handle (approve 2 "menu" "ann") archived_api).0
      (handle (approve 2 "menu" "ann") archived_api).1
handle-Audited_example = handle-Audited (approve 2 "menu" "ann") archived_api

handle_all-FilesMatch_example : FilesMatch (handle_all requests empty_api)
unfolding lookup
handle_all-FilesMatch_example =
    handle_all-FilesMatch requests empty_api (refl, (refl, (refl, (refl, (refl, tt))))) (λ id. refl)

synced_answers_approved_example :
    Shows (sync_rules 6 true false (handle_all requests empty_api)).1 first 12 (signal_of 2)
unfolding lookup
synced_answers_approved_example =
    synced_answers_approved requests empty_api 6 false first 12 (signal_of 2)
      (record { count = 2; confidence = 9_000 }) tt (λ id m e. cc) (λ w h. h) refl
