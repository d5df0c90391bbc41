-- ===== src/Creative/Store/Laws.antt =====
-- What the creative service serves, and how it stands to the player's own check.
use adaptive_advertisement.Common.{
  ℕ, suc, ◌+◌, ◌<◌, String, ◌≡◌, refl, ◌≢◌, inl, inr, true, false, Option, none, some, List, [],
  ◌∷◌, arith, Bool-cases, length, lookup, lookup-insert, eq_iff,
}
use adaptive_advertisement.Common.Outcome.{ok}
use adaptive_advertisement.Common.Codec.{validate_schema, truthy}
use adaptive_advertisement.Manifest.{Manifest, Expiry, aware, naive, malformed, is_approved}
use adaptive_advertisement.Player.Manifests.{File, unreadable, json, check_manifest}
use adaptive_advertisement.Player.Manifests.Laws.{MayRender, forever, until, check_manifest_iff}
use adaptive_advertisement.Creative.Store.{
  Store, unapproved, found, store, load_file, load_files, load_directory, is_expired, expired_text,
  expired_at, serve, get,
}

expired_at_on_time :
    (now : ℕ) (e : Expiry) → expired_at now e ≡ ok false → (t : ℕ) × (e ≡ aware t) × (now < t)
unfolding expired_at
expired_at_on_time now (aware t) h = (t, refl, ground arith)
expired_at_on_time now naive h = cc
expired_at_on_time now (malformed why) h = cc

on_time-MayRender :
    (expiry_of : String → Expiry) (now : ℕ) (m : Manifest) (o : Option String)
    → m.expires_at ≡ o
    → is_approved m ≡ true
    → expired_text expiry_of now o ≡ ok false
    → MayRender expiry_of now m
unfolding expired_text
on_time-MayRender expiry_of now m none e a h = forever a (rw e)
on_time-MayRender expiry_of now m (some text) e a h = elim (Bool-cases (truthy (some text))) [
  | inl full ↦
      let (t, p, l) = expired_at_on_time now (expiry_of text) (rw full at h) in
      until text t a e p (omega arith)
  | inr empty ↦ forever a (rw e empty)
]

get_found :
    (expiry_of : String → Expiry) (now : ℕ) (o : Option Manifest) (m : Manifest)
    → serve expiry_of now o ≡ ok (found m)
    → (o ≡ some m) × (is_approved m ≡ true) × (is_expired expiry_of now m ≡ ok false)
unfolding serve
get_found expiry_of now none m h = cc
get_found expiry_of now (some n) m h = ground arith

-- A manifest that the creative service serves at some time passes the player's own check at the
-- same time, and it is the one stored under the identifier asked for.
pub served_may_render :
    (expiry_of : String → Expiry) (now : ℕ) (id : String) (s : Store) (m : Manifest)
    → get expiry_of now id s ≡ ok (found m)
    → (lookup id s.manifests ≡ some m) × (check_manifest expiry_of now m ≡ ok none)
unfolding get is_expired
served_may_render expiry_of now id s m h =
    let (e, a, l) = get_found expiry_of now (lookup id s.manifests) m h in
    (
      e,
      (check_manifest_iff expiry_of now m).1
          (on_time-MayRender expiry_of now m m.expires_at refl a l),
    )

module _ (iter_errors : Manifest → List String) where
  -- Every stored manifest is valid, approved, and stands under its own identifier.
  abbrev pub IsSound : Store → Type 0
  IsSound s =
      (k : String) (m : Manifest)
      → lookup k s.manifests ≡ some m
      → (truthy (validate_schema (iter_errors m)) ≡ false)
        × (is_approved m ≡ true)
        × (m.manifest_id ≡ k)

  pub store-IsSound : (m : Manifest) (s : Store) → IsSound s → IsSound (store iter_errors m s).0
  unfolding store
  store-IsSound m s h k n e =
      ground (arith, lookup-insert m.manifest_id k m s.manifests, eq_iff m.manifest_id k, h k n)

  load_file-IsSound :
      (f : File) (s : Store × ℕ) → IsSound s.0 → IsSound (load_file iter_errors f s).0
  unfolding load_file
  load_file-IsSound unreadable (s, n) h = h
  load_file-IsSound (json m) (s, n) h = store-IsSound m s h

  load_files-IsSound :
      (fs : List File) (s : Store × ℕ) → IsSound s.0 → IsSound (load_files iter_errors fs s).0
  unfolding load_files
  load_files-IsSound [] s h = h
  load_files-IsSound (f ∷ fs) s h =
      load_files-IsSound fs (load_file iter_errors f s) (load_file-IsSound f s h)

  -- Loading any directory keeps the store sound.
  pub load_directory-IsSound :
      (disk : Option (List File)) (s : Store)
      → IsSound s
      → IsSound (load_directory iter_errors disk s).0
  unfolding load_directory
  load_directory-IsSound none s h = h
  load_directory-IsSound (some fs) s h = load_files-IsSound fs (s, 0) h

  serve_approved :
      (expiry_of : String → Expiry) (now : ℕ) (o : Option Manifest)
      → ((m : Manifest) → o ≡ some m → is_approved m ≡ true)
      → serve expiry_of now o ≢ ok unapproved
  unfolding serve
  serve_approved expiry_of now none h e = cc
  serve_approved expiry_of now (some m) h e = ground (arith, h m refl)

  -- From a sound store the answer 403 (unapproved) is never given.
  pub get-ne-unapproved :
      (expiry_of : String → Expiry) (now : ℕ) (id : String) (s : Store)
      → IsSound s
      → get expiry_of now id s ≢ ok unapproved
  unfolding get
  get-ne-unapproved expiry_of now id s h =
      serve_approved expiry_of now (lookup id s.manifests) (λ m e. (h id m e).1)

  load_file_counted :
      (f : File) (s : Store × ℕ)
      → (load_file iter_errors f s).1 + (load_file iter_errors f s).0.load_errors
        ≡ suc (s.1 + s.0.load_errors)
  unfolding load_file store
  load_file_counted unreadable (s, n) = omega arith
  load_file_counted (json m) (s, n) = ground arith

  load_files_counted :
      (fs : List File) (s : Store × ℕ)
      → (load_files iter_errors fs s).1 + (load_files iter_errors fs s).0.load_errors
        ≡ length fs + (s.1 + s.0.load_errors)
  unfolding load_files
  load_files_counted [] s = omega arith
  load_files_counted (f ∷ fs) s =
      omega (arith, load_files_counted fs (load_file iter_errors f s), load_file_counted f s)

  -- Every file of the directory is either counted as loaded or counted as a load error.
  pub load_directory_counted :
      (fs : List File) (s : Store)
      → (load_directory iter_errors (some fs) s).1
          + (load_directory iter_errors (some fs) s).0.load_errors
        ≡ length fs + s.load_errors
  unfolding load_directory
  load_directory_counted fs s = omega (arith, load_files_counted fs (s, 0))
