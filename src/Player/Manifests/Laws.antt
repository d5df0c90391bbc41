-- ===== src/Player/Manifests/Laws.antt =====
-- What the player's store holds and what passes its check.
use adaptive_advertisement.Common.{
  ℕ, ◌≤◌, String, ◌≡◌, refl, ◌↔◌, inl, inr, true, false, Option, none, some, List, [], ◌∷◌, arith,
  Bool-cases, length, lookup, insert, lookup-nil, lookup-insert, length-insert, eq_iff,
}
use adaptive_advertisement.Common.Outcome.{ok, raised, type_error}
use adaptive_advertisement.Common.Codec.{validate_schema, truthy}
use adaptive_advertisement.Manifest.{Manifest, Expiry, aware, naive, malformed, is_approved}
use adaptive_advertisement.Player.Manifests.{
  File, unreadable, json, Store, load_file, load_files, reload, put, check_manifest, reject_expiry,
  check_expiry,
}

-- A manifest passes the check exactly when both approval fields are there and it has no expiry
-- date, an empty one, or one that has not passed.
pub data MayRender (expiry_of : String → Expiry) (now : ℕ) (m : Manifest) : Type 0 where
  forever : is_approved m ≡ true → truthy m.expires_at ≡ false → MayRender expiry_of now m
  until :
      (text : String) (t : ℕ)
      → is_approved m ≡ true
      → m.expires_at ≡ some text
      → expiry_of text ≡ aware t
      → now ≤ t
      → MayRender expiry_of now m

check_until :
    (expiry_of : String → Expiry) (now : ℕ) (text : String) (e : Expiry)
    → reject_expiry now text e ≡ ok none
    → (t : ℕ) × (e ≡ aware t) × (now ≤ t)
unfolding reject_expiry
check_until expiry_of now text (aware t) h = (t, refl, ground arith)
check_until expiry_of now text naive h = cc
check_until expiry_of now text (malformed why) h = cc

MayRender-check :
    {expiry_of : String → Expiry} {now : ℕ} {m : Manifest}
    → MayRender expiry_of now m
    → check_manifest expiry_of now m ≡ ok none
unfolding check_manifest check_expiry reject_expiry
MayRender-check {expiry_of} {now} {m} (forever a e) = ground arith
MayRender-check {expiry_of} {now} {m} (until text t a e p l) = ground arith

check-MayRender :
    (expiry_of : String → Expiry) (now : ℕ) (m : Manifest) (o : Option String)
    → m.expires_at ≡ o
    → is_approved m ≡ true
    → check_expiry expiry_of now o ≡ ok none
    → MayRender expiry_of now m
unfolding check_expiry
check-MayRender expiry_of now m none e a h = forever a (rw e)
check-MayRender expiry_of now m (some text) e a h = elim (Bool-cases (truthy (some text))) [
  | inl full ↦
      let (t, p, l) = check_until expiry_of now text (expiry_of text) (rw full at h) in
      until text t a e p l
  | inr empty ↦ forever a (rw e empty)
]

approved_of_check :
    (expiry_of : String → Expiry) (now : ℕ) (m : Manifest)
    → check_manifest expiry_of now m ≡ ok none
    → (is_approved m ≡ true) × (check_expiry expiry_of now m.expires_at ≡ ok none)
unfolding check_manifest
approved_of_check expiry_of now m h = ground arith

-- `check_manifest` passes a manifest exactly when it may be rendered: both approval fields are
-- there, and it has no expiry date, an empty one, or one that is not yet passed.
pub check_manifest_iff :
    (expiry_of : String → Expiry) (now : ℕ) (m : Manifest)
    → (check_manifest expiry_of now m ≡ ok none) ↔ MayRender expiry_of now m
check_manifest_iff expiry_of now m = (
  λ h.
      let (a, e) = approved_of_check expiry_of now m h in
      check-MayRender expiry_of now m m.expires_at refl a e,
  MayRender-check,
)

-- An expiry date without a zone is an exception, and no rejection.
pub check_naive :
    (expiry_of : String → Expiry) (now : ℕ) (m : Manifest) (text : String)
    → is_approved m ≡ true
    → m.expires_at ≡ some text
    → truthy (some text) ≡ true
    → expiry_of text ≡ naive
    → check_manifest expiry_of now m ≡ raised type_error
unfolding check_manifest check_expiry reject_expiry
check_naive expiry_of now m text a e f n = ground arith

module _ (iter_errors : Manifest → List String) where
  -- A manifest that the validator accepts.
  abbrev pub IsValid : Manifest → Type 0
  IsValid m = truthy (validate_schema (iter_errors m)) ≡ false

  -- Every manifest in the store is valid, and stands under its own identifier.
  abbrev pub IsSound : Store → Type 0
  IsSound store =
      (k : String) (m : Manifest) → lookup k store ≡ some m → IsValid m × (m.manifest_id ≡ k)

  IsSound-insert :
      (m : Manifest) (store : Store)
      → IsValid m
      → IsSound store
      → IsSound (insert m.manifest_id m store)
  IsSound-insert m store v h k n e =
      ground (arith, lookup-insert m.manifest_id k m store, eq_iff m.manifest_id k, h k n)

  -- `put` keeps the store sound, and a refused manifest does not change it.
  pub put-IsSound :
      (m : Manifest) (store : Store) → IsSound store → IsSound (put iter_errors m store).0
  unfolding put
  put-IsSound m store h = elim (Bool-cases (truthy (validate_schema (iter_errors m)))) [
    | inl bad ↦ rw bad h
    | inr good ↦ rw good (IsSound-insert m store good h)
  ]

  load_file-IsSound :
      (f : File) (s : Store × ℕ) → IsSound s.0 → IsSound (load_file iter_errors f s).0
  unfolding load_file
  load_file-IsSound unreadable s h = h
  load_file-IsSound (json m) (store, n) h =
      elim (Bool-cases (truthy (validate_schema (iter_errors m)))) [
        | inl bad ↦ rw bad h
        | inr good ↦ rw good (IsSound-insert m store good h)
      ]

  load_files-IsSound :
      (fs : List File) (s : Store × ℕ) → IsSound s.0 → IsSound (load_files iter_errors fs s).0
  unfolding load_files
  load_files-IsSound [] s h = h
  load_files-IsSound (f ∷ fs) s h =
      load_files-IsSound fs (load_file iter_errors f s) (load_file-IsSound f s h)

  IsSound-nil : IsSound []
  IsSound-nil k m e = cc (e, lookup-nil {V = Manifest} k)

  -- Whatever the directory holds, the store is sound after a reload, whatever it held before.
  pub reload-IsSound :
      (disk : Option (List File)) (store : Store) → IsSound (reload iter_errors disk store).0
  unfolding reload
  reload-IsSound none store = IsSound-nil
  reload-IsSound (some fs) store = load_files-IsSound fs ([], 0) IsSound-nil

  load_file-length :
      (f : File) (s : Store × ℕ)
      → length s.0 ≤ s.1
      → length (load_file iter_errors f s).0 ≤ (load_file iter_errors f s).1
  unfolding load_file
  load_file-length unreadable s h = h
  load_file-length (json m) (store, n) h = ground (arith, length-insert m.manifest_id m store)

  load_files-length :
      (fs : List File) (s : Store × ℕ)
      → length s.0 ≤ s.1
      → length (load_files iter_errors fs s).0 ≤ (load_files iter_errors fs s).1
  unfolding load_files
  load_files-length [] s h = h
  load_files-length (f ∷ fs) s h =
      load_files-length fs (load_file iter_errors f s) (load_file-length f s h)

  -- A reload reports at least as many manifests as it holds afterwards.
  pub length-reload :
      (disk : Option (List File)) (store : Store)
      → length (reload iter_errors disk store).0 ≤ (reload iter_errors disk store).1
  unfolding reload
  length-reload none store = omega arith
  length-reload (some fs) store = load_files-length fs ([], 0) (omega arith)
