-- ===== src/System/Targeting.antt =====
-- From the operator's requests to the manifest that the decision engine selects.
use adaptive_advertisement.Common.{
  ℕ, String, ◌≡◌, refl, ◌⊎◌, inl, inr, Bool, true, some, List, [], lookup, is_some, map, IsIn, Dict,
}
use adaptive_advertisement.Common.Outcome.{ok}
use adaptive_advertisement.Decision.Signal.{Signal, Presence}
use adaptive_advertisement.Decision.Policy.{RulesFile, PolicyEngine, evaluate, load_policy}
use adaptive_advertisement.Decision.Policy.Totality.{DrawsInRange}
use adaptive_advertisement.Dashboard.Rules.{Tagged}
use adaptive_advertisement.Dashboard.Rules.Generate.{build_rules_file}
use adaptive_advertisement.Dashboard.Rules.Synced.{synced_never_blank}
use adaptive_advertisement.Dashboard.Audit.{ManifestStatus, draft, enabled}
use adaptive_advertisement.Dashboard.Manifests.{Manifest, Api, is_enabled}
use adaptive_advertisement.Dashboard.Manifests.Requests.{Request, handle_all}
use adaptive_advertisement.Dashboard.Manifests.Approval.{
  is_past_approval, AllApprovedFirst, approval_not_bypassed,
}
use adaptive_advertisement.Dashboard.Manifests.Sync.{enabled_manifests, sync_rules}
use adaptive_advertisement.Dashboard.Manifests.Sync.Enabled.{
  IsUnique, IsEnabled, handle_all-IsUnique, enabled_manifests-IsEnabled,
}

-- Enabled, and somebody approved it at a time that is on record.
pub record IsCleared (table : Dict Manifest) (id : String) : Type 0 where
  pub row : Manifest
  pub found : lookup id table ≡ some row
  pub on : is_enabled row.status ≡ true
  pub approver : is_some row.approved_by ≡ true
  pub approval_time : is_some row.approved_at ≡ true

past_of_enabled : (s : ManifestStatus) → is_enabled s ≡ true → is_past_approval s ≡ true
unfolding is_enabled
past_of_enabled enabled h = refl
past_of_enabled draft h = cc
past_of_enabled _ h = cc

cleared :
    (api : Api) (id : String)
    → AllApprovedFirst api.manifests
    → IsEnabled api.manifests id
    → IsCleared api.manifests id
cleared api id h (m, e, on) =
    let (by, at_time) = h id m e (past_of_enabled m.status on) in
    record { row = m; found = e; on = on; approver = by; approval_time = at_time }

stub_or_enabled :
    (api : Api) (m : String)
    → IsUnique api.manifests
    → AllApprovedFirst api.manifests
    → IsIn m (map (λ (t : Tagged). t.manifest_id) (enabled_manifests api))
      ⊎ ((enabled_manifests api ≡ []) × (m ≡ "manifest-attract"))
    → IsCleared api.manifests m ⊎ ((enabled_manifests api ≡ []) × (m ≡ "manifest-attract"))
stub_or_enabled api m u h (inl i) = inl (cleared api m h (enabled_manifests-IsEnabled api m u i))
stub_or_enabled api m u h (inr stub) = inr stub

-- What the engine does with the file at `rules_output_path`.
pub record Shows (api : Api) (draw : List ℕ → ℕ) (hour : ℕ) (s : Signal) : Type 0 where
  pub file : RulesFile
  pub stored : api.rules_file ≡ some file
  pub engine : PolicyEngine
  pub loaded : load_policy file ≡ ok engine
  pub manifest : String
  pub shown : evaluate draw hour engine s ≡ ok (some manifest)
  pub sound :
      IsCleared api.manifests manifest
      ⊎ ((enabled_manifests api ≡ []) × (manifest ≡ "manifest-attract"))

-- After every sequence of requests on the manifests and a synchronisation whose file could be written,
-- the decision engine loads the file, and at every hour it answers every signal with presence by a
-- manifest that is enabled and whose approval is on record, or by the stub if no manifest is enabled.
-- The table has unique keys and its approvals on record at the start, and `random.choices` gives a
-- member of its list.
pub synced_answers_approved :
    (rs : List Request) (start : Api) (now : ℕ) (reload_ok : Bool) (draw : List ℕ → ℕ) (hour : ℕ)
    (s : Signal) (p : Presence)
    → IsUnique start.manifests
    → AllApprovedFirst start.manifests
    → DrawsInRange draw
    → s.presence ≡ some p
    → Shows (sync_rules now true reload_ok (handle_all rs start)).1 draw hour s
unfolding sync_rules enabled_manifests
synced_answers_approved rs start now reload_ok draw hour s p unique first in_range seen =
    let api = handle_all rs start in
    let (e, load, m, shown, who) =
      synced_never_blank draw hour 10_000 5_000 (enabled_manifests api) s p in_range seen in
    record {
      file = build_rules_file 10_000 5_000 (enabled_manifests api);
      stored = refl;
      engine = e;
      loaded = load;
      manifest = m;
      shown = shown;
      sound =
          (stub_or_enabled api m (handle_all-IsUnique rs start unique)
            (approval_not_bypassed rs start first) who);
    }
