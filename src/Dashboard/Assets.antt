-- ===== src/Dashboard/Assets.antt =====
-- services/dashboard-api/dashboard_api/routers/assets.py: uploads of creative files. `sha256` is hashlib's
-- hash object. ASSET_STORAGE_DIR exists, its files can be opened and go by `asset_id`. A byte is its number.
pub mod Stored
use adaptive_advertisement.Common.{
  ℕ, zero, suc, ◌+◌, ◌≡◌, String, Bool, true, false, Option, none, some, List, [], ◌∷◌, ◌++◌,
  length, if◌then◌else◌, Dict, lookup, insert, is_some, str_eq,
}
use adaptive_advertisement.Player.Fallback.{codes, same_codes}
use adaptive_advertisement.Dashboard.Audit.{
  asset_uploaded, asset_archived, uploaded, filename, AuditEvent, write_event,
}
use adaptive_advertisement.Dashboard.Manifests.{Response, success, http_error}
use adaptive_advertisement.Dashboard.Fallback.{extension}

-- `hashlib.sha256()`, `update` and `hexdigest`
pub record Sha256 : Type 1 where
  pub State : Type 0
  pub new : State
  pub update : State → List ℕ → State
  pub hexdigest : State → String

pub data AssetStatus : Type 0 where
  active archived : AssetStatus

pub record Asset : Type 0 where
  pub filename : String
  pub asset_type : String
  pub size_bytes : ℕ
  pub sha256 : String
  pub status : AssetStatus
  pub uploaded_at : ℕ

pub record Store : Type 0 where
  pub assets : Dict Asset
  pub disk : Dict (List ℕ)
  pub audit_events : List AuditEvent

-- `_ALLOWED_EXTENSIONS`
abbrev pub allowed_extensions : List (String × String)
allowed_extensions =
    (".mp4", "video")
    ∷ (".webm", "video")
    ∷ (".jpg", "image")
    ∷ (".jpeg", "image")
    ∷ (".png", "image")
    ∷ (".webp", "image")
    ∷ (".html", "html")
    ∷ []

type_in : List (String × String) → List ℕ → String
type_in [] ext = "unknown"
type_in ((e, t) ∷ rest) ext = if same_codes ext (codes e) then t else type_in rest ext

-- `_detect_asset_type`
unfoldable pub detect_asset_type : String → String
unfolding type_in
detect_asset_type name = type_in allowed_extensions (extension name)

-- A chunk that is read, and whether it could be written.
pub record Chunk : Type 0 where
  pub bytes : List ℕ
  pub written : Bool

-- What the loop leaves: the file, the hash and the count, or the file at an OSError.
pub data Streamed (S : Type 0) : Type 0 where
  complete : (content : List ℕ) (sha : S) (size_bytes : ℕ) → Streamed S
  failed : (content : List ℕ) → Streamed S

-- The loop over the chunks.
unfoldable pub stream :
    (h : Sha256) (content : List ℕ) (sha : h.State) (size_bytes : ℕ) → List Chunk → Streamed h.State
stream h content sha size_bytes [] = complete content sha size_bytes
stream h content sha size_bytes (c ∷ cs) =
    let rest =
      stream h (content ++ c.bytes) (h.update sha c.bytes) (size_bytes + length c.bytes) cs in
    if c.written then rest else failed content

-- `file.filename or "unknown"`
or_unknown : Option String → String
or_unknown none = "unknown"
or_unknown (some n) = if str_eq n "" then "unknown" else n

-- Where the identifier is taken, the insertion raises.
save_upload :
    {S : Type 0} (hexdigest : S → String) (now : ℕ) (id name : String)
    → Store
    → Streamed S
    → Response Asset × Store
save_upload hexdigest now id name s (failed content) =
    (http_error 500, record s { disk = insert id content s.disk })
save_upload hexdigest now id name s (complete content sha size) =
    let a : Asset = record {
      filename = name;
      asset_type = detect_asset_type name;
      size_bytes = size;
      sha256 = hexdigest sha;
      status = active;
      uploaded_at = now;
    } in
    if is_some (lookup id s.assets)
    then (http_error 500, record s { disk = insert id content s.disk })
    else (
      success a,
      record {
        assets = insert id a s.assets;
        disk = insert id content s.disk;
        audit_events =
            write_event now asset_uploaded "asset" id "operator"
              (uploaded name (detect_asset_type name) size) s.audit_events;
      },
    )

-- `id` is what uuid4 gives.
unfoldable pub upload_asset :
    (h : Sha256) (now : ℕ) (id : String) (name : Option String)
    → List Chunk
    → Store
    → Response Asset × Store
unfolding or_unknown save_upload
upload_asset h now id name chunks s =
    if str_eq (detect_asset_type (or_unknown name)) "unknown"
    then (http_error 422, s)
    else save_upload h.hexdigest now id (or_unknown name) s (stream h [] h.new 0 chunks)

unfoldable pub get_asset : (id : String) → Store → Response Asset
get_asset id s = elim (lookup id s.assets) [ none ↦ http_error 404 | some a ↦ success a ]

unfoldable pub is_archived : AssetStatus → Bool
is_archived active = false
is_archived archived = true

archive_found : (now : ℕ) (id : String) → Store → Option Asset → Response Asset × Store
archive_found now id s none = (http_error 404, s)
archive_found now id s (some a) =
    let gone : Asset = record a { status = archived } in
    if is_archived a.status then (http_error 409, s) else (
      success gone,
      record s {
        assets = insert id gone s.assets;
        audit_events =
            write_event now asset_archived "asset" id "operator" (filename a.filename)
              s.audit_events;
      },
    )

unfoldable pub archive_asset : (now : ℕ) (id : String) → Store → Response Asset × Store
unfolding archive_found
archive_asset now id s = archive_found now id s (lookup id s.assets)
