-- ===== src/Dashboard/Manifests/Moves.antt =====
-- What a request does: it is refused, or it writes one row and one event.
use adaptive_advertisement.Common.{
  ℕ, String, ◌≡◌, refl, Bool, true, false, Bool-cases, Option-cases, Option, none, some, List, [],
  ◌∷◌, ◌++◌, if◌then◌else◌, Dict, lookup, insert, inl, inr,
}
use adaptive_advertisement.Dashboard.Tags.{Tag}
use adaptive_advertisement.Dashboard.Audit.{
  draft, approved, rejected, enabled, disabled, archived, AuditEvent, write_event,
}
use adaptive_advertisement.Dashboard.Manifests.{
  Manifest, Api, Response, success, http_error, can_transition, write_manifest_to_disk,
  remove_manifest_from_disk, get_manifest_or_404, saved, ManifestIn, create_manifest, approve_row,
  approve_manifest, reject_row, reject_manifest, enable_row, enable_manifest, disable_row,
  disable_manifest, is_archived, tags_row, update_manifest_tags, is_enabled, archive_row,
  archive_manifest,
}
use adaptive_advertisement.Dashboard.Manifests.Requests.{
  Request, create, approve, reject, enable, disable, update_tags, archive, handle, disk_works,
}

-- A row and the disk, before and after.
pub data Move (ok : Bool) (id : String)
    : Manifest → Dict String → Manifest → Dict String → Type 0 where
  approves :
      (m : Manifest) (d : Dict String) (now : ℕ) (by : String)
      → can_transition m.status approved ≡ true
      → Move ok id m d
          (record m {
            status = approved;
            approved_by = some by;
            approved_at = some now;
            rejection_reason = none;
            updated_at = now;
          })
          d
  rejects :
      (m : Manifest) (d : Dict String) (now : ℕ) (reason : String)
      → can_transition m.status rejected ≡ true
      → Move ok id m d
          (record m { status = rejected; rejection_reason = some reason; updated_at = now })
          d
  enables :
      (m : Manifest) (d : Dict String) (now : ℕ)
      → can_transition m.status enabled ≡ true
      → Move ok id m d
          (record m { status = enabled; enabled_at = some now; updated_at = now })
          (write_manifest_to_disk ok id m d)
  disables :
      (m : Manifest) (d : Dict String) (now : ℕ)
      → can_transition m.status disabled ≡ true
      → Move ok id m d
          (record m { status = disabled; updated_at = now })
          (remove_manifest_from_disk ok id d)
  tags_it :
      (m : Manifest) (d : Dict String) (now : ℕ) (tags : List Tag)
      → is_archived m.status ≡ false
      → Move ok id m d (record m { audience_tags = some tags; updated_at = now }) d
  archives :
      (m : Manifest) (d : Dict String) (now : ℕ)
      → can_transition m.status archived ≡ true
      → Move ok id m d
          (record m { status = archived; updated_at = now })
          (if is_enabled m.status then remove_manifest_from_disk ok id d else d)

abbrev pub new_row : ℕ → ManifestIn → Manifest
new_row now body = record {
  title = body.title;
  status = draft;
  schema_version = body.schema_version;
  manifest_json = body.manifest_json;
  audience_tags = some body.audience_tags;
  rejection_reason = none;
  approved_by = none;
  approved_at = none;
  enabled_at = none;
  created_at = now;
  updated_at = now;
}

pub data IsHandled (ok : Bool) (api : Api) : Response Manifest × Api → Type 0 where
  refused : (code : ℕ) → IsHandled ok api (http_error code, api)
  registered :
      (now : ℕ) (body : ManifestIn) (e : AuditEvent)
      → lookup body.manifest_id api.manifests ≡ none
      → IsHandled ok api (
        success (new_row now body),
        record api {
          manifests = insert body.manifest_id (new_row now body) api.manifests;
          audit_events = api.audit_events ++ e ∷ [];
        },
      )
  moved :
      (id : String) (m m' : Manifest) (d : Dict String) (e : AuditEvent)
      → lookup id api.manifests ≡ some m
      → Move ok id m api.disk m' d
      → IsHandled ok api (
        success m',
        record api {
          manifests = insert id m' api.manifests;
          audit_events = api.audit_events ++ e ∷ [];
          disk = d;
        },
      )

get-IsHandled :
    {ok : Bool} (api : Api) (o : Option Manifest) (rest : Manifest → Response Manifest × Api)
    → ((m : Manifest) → o ≡ some m → IsHandled ok api (rest m))
    → IsHandled ok api (get_manifest_or_404 api o rest)
unfolding get_manifest_or_404
get-IsHandled api none rest h = refused 404
get-IsHandled api (some m) rest h = h m refl

-- A handler that refuses with 409 unless its test holds.
guarded-IsHandled :
    {ok : Bool} (api : Api) (test : Bool) (done : Response Manifest × Api)
    → (test ≡ true → IsHandled ok api done)
    → IsHandled ok api (if test then done else (http_error 409, api))
guarded-IsHandled api true done h = h refl
guarded-IsHandled api false done h = refused 409

-- What every request does.
pub handle-IsHandled : (r : Request) (api : Api) → IsHandled (disk_works r) api (handle r api)
unfolding handle create_manifest saved write_event approve_manifest approve_row reject_manifest
    reject_row enable_manifest enable_row disable_manifest disable_row update_manifest_tags tags_row
    archive_manifest archive_row write_manifest_to_disk
handle-IsHandled (create now body) api =
    elim (Option-cases (lookup body.manifest_id api.manifests)) [
      | inl new ↦ rw new (registered now body _ new)
      | inr (m, old) ↦ rw old (refused 409)
    ]
handle-IsHandled (approve now id by) api =
    get-IsHandled api (lookup id api.manifests) (approve_row now id by api) (λ m e.
      guarded-IsHandled api (can_transition m.status approved) _
        (λ can. moved id m _ api.disk _ e (approves m api.disk now by can)))
handle-IsHandled (reject now id by reason) api =
    get-IsHandled api (lookup id api.manifests) (reject_row now id by reason api) (λ m e.
      guarded-IsHandled api (can_transition m.status rejected) _
        (λ can. moved id m _ api.disk _ e (rejects m api.disk now reason can)))
handle-IsHandled (enable now ok id) api =
    get-IsHandled api (lookup id api.manifests) (enable_row now ok id api) (λ m e.
      guarded-IsHandled api (can_transition m.status enabled) _
        (λ can. moved id m _ _ _ e (enables m api.disk now can)))
handle-IsHandled (disable now ok id) api =
    get-IsHandled api (lookup id api.manifests) (disable_row now ok id api) (λ m e.
      guarded-IsHandled api (can_transition m.status disabled) _
        (λ can. moved id m _ _ _ e (disables m api.disk now can)))
handle-IsHandled (update_tags now id tags) api =
    get-IsHandled api (lookup id api.manifests) (tags_row now id tags api) (λ m e.
      elim (Bool-cases (is_archived m.status)) [
        | inl done ↦ rw done (refused 409)
        | inr live ↦ rw live (moved id m _ api.disk _ e (tags_it m api.disk now tags live))
      ])
handle-IsHandled (archive now ok id) api =
    get-IsHandled api (lookup id api.manifests) (archive_row now ok id api) (λ m e.
      guarded-IsHandled api (can_transition m.status archived) _
        (λ can. moved id m _ _ _ e (archives m api.disk now can)))
