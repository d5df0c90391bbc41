-- ===== src/Player/Manifests.antt =====
-- services/player/player/manifest_store.py: the player's cache of manifests.
-- The validator of the jsonschema package is the parameter `iter_errors`; the directory is an
-- argument, the files that `sorted(glob("*.json"))` gives, or `none` where it does not exist.
-- `expiry_of` parses a time stamp, `now` is the wall clock.
pub mod Laws
use adaptive_advertisement.Common.{
  ℕ, ◌+◌, String, Bool, true, false, not, Option, none, some, List, [], ◌∷◌, map, ltb,
  if◌then◌else◌, Dict, lookup, insert,
}
use Prim.Native.String
use adaptive_advertisement.Common.Outcome.{Outcome, ok, raised, type_error}
use adaptive_advertisement.Common.Codec.{validate_schema, truthy}
use adaptive_advertisement.Manifest.{Manifest, Expiry, aware, naive, malformed, is_approved}

pub data File : Type 0 where
  unreadable : File
  json : Manifest → File

abbrev pub Store : Type 0
Store = Dict Manifest

module _ (iter_errors : Manifest → List String) where
  load_manifest : Manifest → Store × ℕ → Store × ℕ
  load_manifest m (store, loaded) =
      if truthy (validate_schema (iter_errors m))
      then (store, loaded)
      else (insert m.manifest_id m store, loaded + 1)

  load_file : File → Store × ℕ → Store × ℕ
  unfolding load_manifest
  load_file unreadable s = s
  load_file (json m) s = load_manifest m s

  unfoldable pub load_files : List File → Store × ℕ → Store × ℕ
  unfolding load_file
  load_files [] s = s
  load_files (f ∷ fs) s = load_files fs (load_file f s)

  unfoldable pub load_from_disk : Option (List File) → Store → Store × ℕ
  unfolding load_files
  load_from_disk none store = (store, 0)
  load_from_disk (some files) store = load_files files (store, 0)

  -- A full replacement: the store is cleared first.
  unfoldable pub reload : Option (List File) → Store → Store × ℕ
  unfolding load_from_disk
  reload disk store = load_from_disk disk []

  -- The error text of a rejected manifest, or none.
  unfoldable pub put : Manifest → Store → Store × Option String
  put m store =
      let err = validate_schema (iter_errors m) in
      if truthy err then (store, err) else (insert m.manifest_id m store, none)

unfoldable pub get : String → Store → Option Manifest
get m store = lookup m store

unfoldable pub manifest_ids : Store → List String
manifest_ids store = map (λ e. e.0) store

reject_expiry : ℕ → String → Expiry → Outcome (Option String)
reject_expiry now text (aware t) =
    ok (if ltb t now then some (String.◌++◌ "expired_at:" text) else none)
reject_expiry now text naive = raised type_error
reject_expiry now text (malformed why) = ok (some (String.◌++◌ "invalid_expires_at:" why))

check_expiry : (String → Expiry) → ℕ → Option String → Outcome (Option String)
unfolding reject_expiry
check_expiry expiry_of now none = ok none
check_expiry expiry_of now (some text) =
    if truthy (some text) then reject_expiry now text (expiry_of text) else ok none

-- Why the manifest may not be rendered now, or none.
unfoldable pub check_manifest : (String → Expiry) → ℕ → Manifest → Outcome (Option String)
unfolding check_expiry
check_manifest expiry_of now m =
    if not (is_approved m)
    then ok (some "missing_approval_fields")
    else check_expiry expiry_of now m.expires_at
