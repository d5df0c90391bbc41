-- ===== src/Dashboard/Manifests/Views.antt =====
-- services/dashboard-api/dashboard_api/routers/manifests.py: what is read of a manifest.
use adaptive_advertisement.Common.{String, Option, none, some, List, [], lookup}
use adaptive_advertisement.Dashboard.Tags.{Tag}
use adaptive_advertisement.Dashboard.Rules.{GeneratedRule}
use adaptive_advertisement.Dashboard.Rules.Generate.{generate_rules_for_manifest}
use adaptive_advertisement.Dashboard.Manifests.{Manifest, Api, Response, success, http_error}

unfoldable pub get_manifest : (manifest_id : String) → Api → Response Manifest
get_manifest id api = elim (lookup id api.manifests) [ none ↦ http_error 404 | some m ↦ success m ]

pub record RulePreviewOut : Type 0 where
  pub manifest_id : String
  pub audience_tags : List Tag
  pub generated_rules : List GeneratedRule

-- `m.audience_tags or []`
or_no_tags : Option (List Tag) → List Tag
or_no_tags none = []
or_no_tags (some tags) = tags

unfoldable pub get_rule_preview : (manifest_id : String) → Api → Response RulePreviewOut
unfolding or_no_tags
get_rule_preview id api = elim (lookup id api.manifests) [
  | none ↦ http_error 404
  | some m ↦ success (record {
    manifest_id = id;
    audience_tags = or_no_tags m.audience_tags;
    generated_rules =
        generate_rules_for_manifest (record { manifest_id = id; audience_tags = m.audience_tags });
  })
]
