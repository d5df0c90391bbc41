-- ===== src/Dashboard/Assets/Stored.antt =====
-- What a row of the assets says of the file on disk.
use adaptive_advertisement.Common.{
  ℕ, ◌+◌, ◌≡◌, refl, sym, ap, subst, ◌∙◌, String, Option, none, some, List, [], ◌∷◌, ◌++◌, length,
  length-append, lookup, lookup-insert, lookup-insert_self, insert, Dict, str_eq, eq_iff,
  Bool-cases, inl, inr, arith,
}
use mathlib.Core.Option.{some-injective}
use adaptive_advertisement.Dashboard.Manifests.{Response}
use adaptive_advertisement.Dashboard.Assets.{
  Sha256, Asset, Store, Chunk, Streamed, complete, failed, stream, upload_asset, archive_asset,
  or_unknown, save_upload, archive_found, detect_asset_type, is_archived,
}

-- What hashlib documents: two updates are one with the bytes of both, and one without bytes does nothing.
pub record IsStreaming (h : Sha256) : Type 0 where
  pub twice : (s : h.State) (a b : List ℕ) → h.update (h.update s a) b ≡ h.update s (a ++ b)
  pub nothing : h.update h.new [] ≡ h.new

-- The row describes the content.
pub record Describes (h : Sha256) (a : Asset) (content : List ℕ) : Type 0 where
  pub size : a.size_bytes ≡ length content
  pub hash : a.sha256 ≡ h.hexdigest (h.update h.new content)

abbrev IsStoredIn : Sha256 → Dict Asset → Dict (List ℕ) → Type 0
IsStoredIn h assets disk =
    (id : String) (a : Asset)
    → lookup id assets ≡ some a
    → (content : List ℕ) × (lookup id disk ≡ some content) × Describes h a content

-- Every row describes a file on disk.
abbrev pub IsStored : Sha256 → Store → Type 0
IsStored h s = IsStoredIn h s.assets s.disk

-- With the identifier that uuid4 gives to an upload.
pub data Request : Type 0 where
  upload : (now : ℕ) (id : String) (name : Option String) (chunks : List Chunk) → Request
  archive : (now : ℕ) (id : String) → Request

unfoldable pub handle : Sha256 → Request → Store → Response Asset × Store
handle h (upload now id name chunks) s = upload_asset h now id name chunks s
handle h (archive now id) s = archive_asset now id s

unfoldable pub handle_all : Sha256 → List Request → Store → Store
handle_all h [] s = s
handle_all h (r ∷ rs) s = handle_all h rs (handle h r s).1

-- No row has the identifier of an upload yet.
abbrev IsFresh : Request → Store → Type 0
IsFresh (upload now id name chunks) s = lookup id s.assets ≡ none
IsFresh (archive now id) s = Unit

abbrev pub AllFresh : Sha256 → List Request → Store → Type 0
AllFresh h [] s = Unit
AllFresh h (r ∷ rs) s = IsFresh r s × AllFresh h rs (handle h r s).1

-- What the loop has hashed and counted is what it has written.
record IsCounted (h : Sha256) (content : List ℕ) (sha : h.State) (size : ℕ) : Type 0 where
  hashed : sha ≡ h.update h.new content
  counted : size ≡ length content

IsWhole : (h : Sha256) → Streamed h.State → Type 0
IsWhole h (complete content sha size) = IsCounted h content sha size
IsWhole h (failed content) = Unit

stream-IsWhole :
    (h : Sha256)
    → IsStreaming h
    → (content : List ℕ) (sha : h.State) (size : ℕ) (cs : List Chunk) → IsCounted h content sha size
    → IsWhole h (stream h content sha size cs)
unfolding stream IsWhole
stream-IsWhole h law content sha size [] good = good
stream-IsWhole h law content sha size (c ∷ cs) good =
    let rest =
      stream-IsWhole h law (content ++ c.bytes) (h.update sha c.bytes) (size + length c.bytes) cs
        (record {
          hashed = ap (λ s. h.update s c.bytes) good.hashed ∙ law.twice h.new content c.bytes;
          counted = omega (arith, good.counted, length-append content c.bytes);
        }) in
    elim (Bool-cases c.written) [ inl fine ↦ rw fine rest | inr bad ↦ rw bad tt ]

-- A file under a new identifier leaves the others.
kept :
    (h : Sha256) (assets : Dict Asset) (disk : Dict (List ℕ)) (id : String) (new : List ℕ)
    → lookup id assets ≡ none
    → IsStoredIn h assets disk
    → IsStoredIn h assets (insert id new disk)
kept h assets disk id new fresh stored j a found =
    let (content, there, good) = stored j a found in
    elim (Bool-cases (str_eq id j)) [
      | inl same ↦ absurd (cc ((eq_iff id j).0 same, fresh, found))
      | inr other ↦ (content, rw (lookup-insert id j new disk, other) there, good)
    ]

-- A row that describes the file under its identifier may be put in.
put :
    (h : Sha256) (assets : Dict Asset) (disk : Dict (List ℕ)) (id : String) (a : Asset)
    (content : List ℕ)
    → lookup id disk ≡ some content
    → Describes h a content
    → IsStoredIn h assets disk
    → IsStoredIn h (insert id a assets) disk
put h assets disk id a content there good stored j b found = elim (Bool-cases (str_eq id j)) [
  | inl same ↦
      let one : some a ≡ some b = rw same at (sym (lookup-insert id j a assets) ∙ found) in
      rw (sym ((eq_iff id j).0 same))
        (content, there, subst (λ x. Describes h x content) (some-injective _ _ one) good)
  | inr other ↦ stored j b (rw other at (sym (lookup-insert id j a assets) ∙ found))
]

save-IsStored :
    (h : Sha256) (now : ℕ) (id name : String) (s : Store) (o : Streamed h.State)
    → IsWhole h o
    → lookup id s.assets ≡ none
    → IsStored h s
    → IsStored h (save_upload h.hexdigest now id name s o).1
unfolding save_upload IsWhole
save-IsStored h now id name s (failed content) whole fresh stored =
    kept h s.assets s.disk id content fresh stored
save-IsStored h now id name s (complete content sha size) whole fresh stored = rw fresh (
    put h s.assets (insert id content s.disk) id _ content (lookup-insert_self id content s.disk)
      (record { size = whole.counted; hash = ap h.hexdigest whole.hashed })
      (kept h s.assets s.disk id content fresh stored))

archive-IsStored :
    (h : Sha256) (now : ℕ) (id : String) (s : Store) (o : Option Asset)
    → lookup id s.assets ≡ o
    → IsStored h s
    → IsStored h (archive_found now id s o).1
unfolding archive_found is_archived
archive-IsStored h now id s none e stored = stored
archive-IsStored h now id s (some a) e stored =
    let (content, there, good) = stored id a e in
    elim (Bool-cases (is_archived a.status)) [
      | inl over ↦ rw over stored
      | inr live ↦ rw live (
          put h s.assets s.disk id _ content there (record { size = good.size; hash = good.hash })
            stored)
    ]

handle-IsStored :
    (h : Sha256) (r : Request) (s : Store)
    → IsStreaming h
    → IsFresh r s
    → IsStored h s
    → IsStored h (handle h r s).1
unfolding handle upload_asset archive_asset
handle-IsStored h (upload now id name chunks) s law fresh stored =
    elim (Bool-cases (str_eq (detect_asset_type (or_unknown name)) "unknown")) [
      | inl bad ↦ rw bad stored
      | inr good ↦ rw good (
          save-IsStored h now id (or_unknown name) s (stream h [] h.new 0 chunks)
            (stream-IsWhole h law [] h.new 0 chunks
              (record { hashed = sym law.nothing; counted = refl }))
            fresh stored)
    ]
handle-IsStored h (archive now id) s law fresh stored =
    archive-IsStored h now id s (lookup id s.assets) refl stored

-- If uuid4 gives no upload an identifier that a row has, every row of the assets tells the size and the
-- hash of the file that is on disk under its identifier, after every sequence of requests, whether their
-- writes succeed or fail and however the uploads are cut into chunks.
pub handle_all-IsStored :
    (h : Sha256) (rs : List Request) (s : Store)
    → IsStreaming h
    → AllFresh h rs s
    → IsStored h s
    → IsStored h (handle_all h rs s)
unfolding handle_all
handle_all-IsStored h [] s law fresh stored = stored
handle_all-IsStored h (r ∷ rs) s law fresh stored =
    handle_all-IsStored h rs (handle h r s).1 law fresh.1 (handle-IsStored h r s law fresh.0 stored)
