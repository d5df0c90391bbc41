-- ===== src/Dashboard/Manifests/Sync.antt =====
-- services/dashboard-api/dashboard_api/routers/manifests.py: `sync_rules`.
pub mod Enabled
use adaptive_advertisement.Common.{
  ℕ, zero, String, Bool, true, false, Option, none, some, List, [], ◌∷◌, ◌++◌, leb, length,
  if◌then◌else◌, Dict,
}
use adaptive_advertisement.Dashboard.Audit.{manifest_rules_synced, synced, write_event}
use adaptive_advertisement.Dashboard.Rules.{Tagged}
use adaptive_advertisement.Dashboard.Rules.Generate.{build_rules, has_fallback, build_rules_file}
use adaptive_advertisement.Dashboard.Manifests.{
  Manifest, Api, Response, success, http_error, is_enabled,
}

-- A row with its key.
pub record Row : Type 0 where
  pub manifest_id : String
  pub row : Manifest

unfoldable pub enabled_rows : Dict Manifest → List Row
enabled_rows [] = []
enabled_rows ((id, m) ∷ d) =
    let rest = enabled_rows d in
    if is_enabled m.status then record { manifest_id = id; row = m } ∷ rest else rest

-- No time stands for an old one; an enabled row has a time.
abbrev time_of : Option ℕ → ℕ
time_of none = 0
time_of (some t) = t

-- `.order_by(Manifest.enabled_at.desc())`
unfoldable pub insert_row : Row → List Row → List Row
insert_row r [] = r ∷ []
insert_row r (x ∷ xs) =
    let rest = insert_row r xs in
    if leb (time_of x.row.enabled_at) (time_of r.row.enabled_at) then r ∷ x ∷ xs else x ∷ rest

unfoldable pub order_rows : List Row → List Row
order_rows [] = []
order_rows (r ∷ rs) = insert_row r (order_rows rs)

unfoldable pub tagged_rows : List Row → List Tagged
tagged_rows [] = []
tagged_rows (r ∷ rs) =
    record { manifest_id = r.manifest_id; audience_tags = r.row.audience_tags } ∷ tagged_rows rs

-- The manifests that the rules are generated from.
unfoldable pub enabled_manifests : Api → List Tagged
enabled_manifests api = tagged_rows (order_rows (enabled_rows api.manifests))

pub record SyncRulesOut : Type 0 where
  pub enabled_manifests : ℕ
  pub generated_rules : ℕ
  pub has_fallback : Bool
  pub optimizer_reloaded : Bool

-- `write_ok`: the rules file could be written. `reload_ok`: the decision-optimizer answered the reload
-- with a success.
unfoldable pub sync_rules :
    (now : ℕ) (write_ok reload_ok : Bool) → Api → Response SyncRulesOut × Api
sync_rules now write_ok reload_ok api =
    let enabled = enabled_manifests api in
    let rules = build_rules enabled in
    if write_ok
    then (
      success (record {
        enabled_manifests = length enabled;
        generated_rules = length rules;
        has_fallback = has_fallback rules;
        optimizer_reloaded = reload_ok;
      }),
      record api {
        rules_file = some (build_rules_file 10_000 5_000 enabled);
        audit_events =
            write_event now manifest_rules_synced "manifest" "*" "operator"
              (synced (length enabled) (length rules) (has_fallback rules) reload_ok)
              api.audit_events;
      },
    )
    else (http_error 500, api)
