-- ===== src/Dashboard/Manifests/Requests.antt =====
-- services/dashboard-api/dashboard_api/routers/manifests.py: the requests that change a manifest, one
-- after the other.
use adaptive_advertisement.Common.{ℕ, String, Bool, true, List, [], ◌∷◌}
use adaptive_advertisement.Dashboard.Tags.{Tag}
use adaptive_advertisement.Dashboard.Manifests.{
  Manifest, Api, Response, ManifestIn, create_manifest, approve_manifest, reject_manifest,
  enable_manifest, disable_manifest, update_manifest_tags, archive_manifest,
}

-- With the time, and whether the disk works.
pub data Request : Type 0 where
  create : (now : ℕ) → ManifestIn → Request
  approve : (now : ℕ) (manifest_id approved_by : String) → Request
  reject : (now : ℕ) (manifest_id rejected_by reason : String) → Request
  enable : (now : ℕ) (disk_ok : Bool) (manifest_id : String) → Request
  disable : (now : ℕ) (disk_ok : Bool) (manifest_id : String) → Request
  update_tags : (now : ℕ) (manifest_id : String) (audience_tags : List Tag) → Request
  archive : (now : ℕ) (disk_ok : Bool) (manifest_id : String) → Request

unfoldable pub handle : Request → Api → Response Manifest × Api
handle (create now body) api = create_manifest now body api
handle (approve now id by) api = approve_manifest now id by api
handle (reject now id by reason) api = reject_manifest now id by reason api
handle (enable now ok id) api = enable_manifest now ok id api
handle (disable now ok id) api = disable_manifest now ok id api
handle (update_tags now id tags) api = update_manifest_tags now id tags api
handle (archive now ok id) api = archive_manifest now ok id api

unfoldable pub handle_all : List Request → Api → Api
handle_all [] api = api
handle_all (r ∷ rs) api = handle_all rs (handle r api).1

-- The disk operation of the request, if it has one, succeeds.
abbrev pub disk_works : Request → Bool
disk_works (enable now ok id) = ok
disk_works (disable now ok id) = ok
disk_works (archive now ok id) = ok
disk_works _ = true
