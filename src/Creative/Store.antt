-- ===== src/Creative/Store.antt =====
-- services/creative/creative/manifest_store.py: the authority for approved manifests.
-- Parameters as in the player's store. A `ValueError` of `_store` is `none` of the id.
pub mod Laws
pub mod Listing
use adaptive_advertisement.Common.{
  ℕ, ◌+◌, String, Bool, true, false, not, ◌&&◌, Option, none, some, List, [], ◌∷◌, leb,
  if◌then◌else◌, Dict, lookup, insert, length,
}
use adaptive_advertisement.Common.Outcome.{Outcome, ok, raised, type_error, value_error, ◌>>=◌}
use adaptive_advertisement.Common.Codec.{validate_schema, truthy}
use adaptive_advertisement.Manifest.{Manifest, Expiry, aware, naive, malformed, is_approved}
use adaptive_advertisement.Player.Manifests.{File, unreadable, json}

pub record Store : Type 0 where
  pub manifests : Dict Manifest
  pub load_errors : ℕ

abbrev pub new : Store
new = record { manifests = []; load_errors = 0 }

-- What `get` returns: the sentinels, or the manifest.
pub data Reply : Type 0 where
  not_found unapproved expired : Reply
  found : Manifest → Reply

module _ (iter_errors : Manifest → List String) where
  -- `_store`: an exception leaves the error counted.
  unfoldable pub store : Manifest → Store → Store × Outcome String
  store m s =
      if truthy (validate_schema (iter_errors m))
      then (record s { load_errors = s.load_errors + 1 }, raised value_error)
      else if not (is_approved m)
      then (record s { load_errors = s.load_errors + 1 }, raised value_error)
      else (record s { manifests = insert m.manifest_id m s.manifests }, ok m.manifest_id)

  unfoldable pub load_manifest : Manifest → Store → Store × Outcome String
  unfolding store
  load_manifest m s = store m s

  count_loaded : Outcome String → ℕ → ℕ
  count_loaded (ok id) n = n + 1
  count_loaded (raised e) n = n

  load_file : File → Store × ℕ → Store × ℕ
  unfolding store count_loaded
  load_file unreadable (s, n) = (record s { load_errors = s.load_errors + 1 }, n)
  load_file (json m) (s, n) = let (s', r) = store m s in (s', count_loaded r n)

  load_files : List File → Store × ℕ → Store × ℕ
  unfolding load_file
  load_files [] s = s
  load_files (f ∷ fs) s = load_files fs (load_file f s)

  unfoldable pub load_directory : Option (List File) → Store → Store × ℕ
  unfolding load_files
  load_directory none s = (s, 0)
  load_directory (some files) s = load_files files (s, 0)

expired_at : ℕ → Expiry → Outcome Bool
expired_at now (aware t) = ok (leb t now)
expired_at now naive = raised type_error
expired_at now (malformed why) = ok true

expired_text : (String → Expiry) → ℕ → Option String → Outcome Bool
unfolding expired_at
expired_text expiry_of now none = ok false
expired_text expiry_of now (some text) =
    if truthy (some text) then expired_at now (expiry_of text) else ok false

unfoldable pub is_expired : (String → Expiry) → ℕ → Manifest → Outcome Bool
unfolding expired_text
is_expired expiry_of now m = expired_text expiry_of now m.expires_at

serve : (String → Expiry) → ℕ → Option Manifest → Outcome Reply
serve expiry_of now none = ok not_found
serve expiry_of now (some m) =
    if not (is_approved m)
    then ok unapproved
    else (is_expired expiry_of now m >>= λ late. ok (if late then expired else found m))

unfoldable pub get : (String → Expiry) → ℕ → String → Store → Outcome Reply
unfolding serve
get expiry_of now id s = serve expiry_of now (lookup id s.manifests)

-- `sum(1 for m in … if approved and not expired)`
count_active : (String → Expiry) → ℕ → Dict Manifest → Outcome ℕ
count_active expiry_of now [] = ok 0
count_active expiry_of now ((k, m) ∷ d) =
    let rest = count_active expiry_of now d in
    if is_approved m
    then (is_expired expiry_of now m >>= λ late. rest >>= λ n. ok (if late then n else n + 1))
    else rest

pub record Status : Type 0 where
  pub total_stored : ℕ
  pub approved_active : ℕ
  pub load_errors : ℕ

unfoldable pub status : (String → Expiry) → ℕ → Store → Outcome Status
unfolding count_active
status expiry_of now s = count_active expiry_of now s.manifests >>= λ n.
    ok (record {
      total_stored = length s.manifests;
      approved_active = n;
      load_errors = s.load_errors;
    })
