-- ===== src/Dashboard/Manifests/Files.antt =====
-- The files that the creative service reads, against the table.
use adaptive_advertisement.Common.{
  String, ◌≡◌, refl, sym, ap, ◌∙◌, subst, true, false, Bool-cases, Option, none, some, List, [],
  ◌∷◌, if◌then◌else◌, Dict, lookup, lookup-insert, arith, inl, inr, str_eq, eq_iff, All,
}
use adaptive_advertisement.Dashboard.Audit.{ManifestStatus, draft, approved, rejected, enabled}
use adaptive_advertisement.Dashboard.Manifests.{
  Manifest, Api, Response, can_transition, remove, write_manifest_to_disk,
  remove_manifest_from_disk, is_enabled,
}
use adaptive_advertisement.Dashboard.Manifests.Requests.{Request, handle, handle_all, disk_works}
use adaptive_advertisement.Dashboard.Manifests.Moves.{
  Move, approves, rejects, enables, disables, tags_it, archives, new_row, IsHandled, refused,
  registered, moved, handle-IsHandled,
}

-- The file that a row should have.
abbrev pub file_of : Option Manifest → Option String
file_of none = none
file_of (some m) = if is_enabled m.status then some m.manifest_json else none

-- Exactly the enabled manifests have a file, with the document of the row.
abbrev pub FilesMatch : Api → Type 0
FilesMatch api = (id : String) → lookup id api.disk ≡ file_of (lookup id api.manifests)

lookup-remove :
    (k j : String) (d : Dict String)
    → lookup j (remove k d) ≡ (if str_eq k j then none else lookup j d)
unfolding lookup remove
lookup-remove k j [] = ground arith
lookup-remove k j ((i, v) ∷ d) =
    ground (arith, eq_iff k j, eq_iff i k, eq_iff i j, lookup-remove k j d)

unchanged :
    (id j : String) (d : Dict String) (o : Option String)
    → lookup id d ≡ o
    → lookup j d ≡ (if str_eq id j then o else lookup j d)
unchanged id j d o e = elim (Bool-cases (str_eq id j)) [
  | inl same ↦ rw same (ap (λ k. lookup k d) (sym ((eq_iff id j).0 same)) ∙ e)
  | inr other ↦ rw other
]

approves_not_enabled :
    (s : ManifestStatus) → can_transition s approved ≡ true → is_enabled s ≡ false
unfolding can_transition is_enabled
approves_not_enabled enabled h = cc
approves_not_enabled draft h = refl
approves_not_enabled _ h = refl

rejects_not_enabled : (s : ManifestStatus) → can_transition s rejected ≡ true → is_enabled s ≡ false
unfolding can_transition is_enabled
rejects_not_enabled enabled h = cc
rejects_not_enabled draft h = refl
rejects_not_enabled _ h = refl

file_of_disabled : (m : Manifest) → is_enabled m.status ≡ false → file_of (some m) ≡ none
file_of_disabled m h = rw h

Move-files :
    {id : String} {m m' : Manifest} {d d' : Dict String}
    → Move true id m d m' d'
    → lookup id d ≡ file_of (some m)
    → (j : String) → lookup j d' ≡ (if str_eq id j then file_of (some m') else lookup j d)
unfolding write_manifest_to_disk remove_manifest_from_disk is_enabled
Move-files {id} (approves m d now by can) h j =
    unchanged id j d none (h ∙ file_of_disabled m (approves_not_enabled m.status can))
Move-files {id} (rejects m d now reason can) h j =
    unchanged id j d none (h ∙ file_of_disabled m (rejects_not_enabled m.status can))
Move-files {id} (enables m d now can) h j = lookup-insert id j m.manifest_json d
Move-files {id} (disables m d now can) h j = lookup-remove id j d
Move-files {id} (tags_it m d now tags live) h j = unchanged id j d _ h
Move-files {id} (archives m d now can) h j = elim (Bool-cases (is_enabled m.status)) [
  | inl on ↦ rw on (lookup-remove id j d)
  | inr off ↦ rw off (unchanged id j d none (h ∙ file_of_disabled m off))
]

handled-FilesMatch :
    {api : Api} {out : Response Manifest × Api}
    → IsHandled true api out
    → FilesMatch api
    → FilesMatch out.1
unfolding is_enabled
handled-FilesMatch (refused code) h j = h j
handled-FilesMatch {api} (registered now body e new) h j =
    elim (Bool-cases (str_eq body.manifest_id j)) [
      | inl same ↦
          rw (lookup-insert body.manifest_id j (new_row now body) api.manifests, same)
            (h j
              ∙ ap file_of (
                  ap (λ k. lookup k api.manifests) (sym ((eq_iff body.manifest_id j).0 same))
                  ∙ new))
      | inr other ↦
          rw (lookup-insert body.manifest_id j (new_row now body) api.manifests, other) (h j)
    ]
handled-FilesMatch {api} (moved id m m' d e found mv) h j =
    let here = Move-files mv (h id ∙ ap file_of found) j in
    elim (Bool-cases (str_eq id j)) [
      | inl same ↦ rw (lookup-insert id j m' api.manifests, same) (rw same at here)
      | inr other ↦ rw (lookup-insert id j m' api.manifests, other) ((rw other at here) ∙ h j)
    ]

-- While the disk works, exactly the enabled manifests have a file in the directory that the creative
-- service reads, with the document of the row, after every sequence of requests.
pub handle_all-FilesMatch :
    (rs : List Request) (api : Api)
    → All (λ r. disk_works r ≡ true) rs
    → FilesMatch api
    → FilesMatch (handle_all rs api)
unfolding handle_all
handle_all-FilesMatch [] api w h = h
handle_all-FilesMatch (r ∷ rs) api w h = handle_all-FilesMatch rs (handle r api).1 w.1 (
    handled-FilesMatch (subst (λ ok. IsHandled ok api (handle r api)) w.0 (handle-IsHandled r api))
      h)
