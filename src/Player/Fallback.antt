-- ===== src/Player/Fallback.antt =====
-- services/player/player/fallback.py: which asset the player shows when it has no manifest.
-- A directory is an argument: its path, its file names in sorted order, and the stripped text of
-- its `_selected` file. File names are compared as texts; an extension is read from the code points.
pub mod Selection
pub mod Priority
pub mod Available
use Prim.Native.Char.{code}
use Prim.Native.String
use adaptive_advertisement.Common.{
  ℕ, ◌+◌, String, Bool, true, false, not, ◌&&◌, ◌||◌, Option, none, some, List, [], ◌∷◌, ◌++◌, map,
  leb, ◌==◌, if◌then◌else◌, any, filter, str_eq, is_some,
}

pub data AssetType : Type 0 where
  image video html : AssetType

pub data Source : Type 0 where
  uninitialised explicit selected_library selected_bundle bundle_auto library_auto builtin
        nothing_found :
      Source

pub record Directory : Type 0 where
  pub path : String
  pub names : List String
  pub marker : Option String

-- The settings FALLBACK_ASSET_NAME (empty for none), FALLBACK_BUNDLE_PATH, FALLBACK_LIBRARY_PATH
-- (none where it is not configured or does not exist).
pub record Settings : Type 0 where
  pub asset_name : String
  pub bundle : Directory
  pub library : Option Directory

pub record FallbackBundle : Type 0 where
  pub asset_path : Option String
  pub asset_type : Option AssetType
  pub source : Source

abbrev pub new : FallbackBundle
new = record { asset_path = none; asset_type = none; source = uninitialised }

abbrev pub codes : String → List ℕ
codes String.[] = []
codes (String.◌∷◌ c s) = code c ∷ codes s

-- The text from the last dot on.
last_dot : List ℕ → Option (List ℕ)
last_dot [] = none
last_dot (c ∷ cs) = elim (last_dot cs) [
  | some s ↦ some s
  | none ↦ if c == b'.' then some (c ∷ cs) else none
]

after_first : List ℕ → Option (List ℕ)
unfolding last_dot
after_first [] = none
after_first (c ∷ cs) = last_dot cs

-- `PurePath.suffix`: no extension where the last dot comes first or last.
suffix_of : Option (List ℕ) → List ℕ
suffix_of none = []
suffix_of (some (dot ∷ [])) = []
suffix_of (some s) = s

unfoldable pub suffix : List ℕ → List ℕ
unfolding after_first suffix_of
suffix name = suffix_of (after_first name)

unfoldable pub lower : ℕ → ℕ
lower c = if leb b'A' c && leb c b'Z' then c + 32 else c

unfoldable pub same_codes : List ℕ → List ℕ → Bool
same_codes [] [] = true
same_codes (a ∷ as') (b ∷ bs) = a == b && same_codes as' bs
same_codes _ _ = false

-- `_EXT_TO_TYPE.get(ext)`
ext_to_type : List ℕ → Option AssetType
unfolding same_codes
ext_to_type ext =
    if same_codes ext (codes ".jpg")
    then some image
    else if same_codes ext (codes ".jpeg")
    then some image
    else if same_codes ext (codes ".png")
    then some image
    else if same_codes ext (codes ".mp4")
    then some video
    else if same_codes ext (codes ".webm")
    then some video
    else if same_codes ext (codes ".html")
    then some html
    else none

-- The type of the asset that a file name stands for, if it is one that can be played.
unfoldable pub type_of : String → Option AssetType
unfolding ext_to_type suffix lower
type_of name = ext_to_type (map lower (suffix (codes name)))

abbrev pub builtin_name : String
builtin_name = "fallback-builtin.png"

abbrev pub selected_marker : String
selected_marker = "_selected"

unfoldable pub is_reserved : String → Bool
is_reserved name =
    str_eq name "_selected" || str_eq name ".gitkeep" || str_eq name "fallback-builtin.png"

-- `(d / name).exists()`
unfoldable pub has_file : Directory → String → Bool
has_file d name = any (λ n. str_eq n name) d.names

unfoldable pub path_in : Directory → String → String
path_in d name = String.◌++◌ d.path (String.◌++◌ "/" name)

-- A selected file, not yet set: where it is, its name, and how it was found.
pub record Choice : Type 0 where
  pub directory : Directory
  pub name : String
  pub source : Source

-- `p.exists() and p.suffix.lower() in _EXT_TO_TYPE`, in each directory in turn
unfoldable pub find_in : List Directory → String → Source → Option Choice
find_in [] _ _ = none
find_in (d ∷ ds) name source =
    let rest = find_in ds name source in
    if has_file d name && is_some (type_of name)
    then some (record { directory = d; name = name; source = source })
    else rest

-- The first name that passes a test and can be played.
unfoldable pub first_playable : (String → Bool) → Directory → List String → Source → Option Choice
first_playable _ _ [] _ = none
first_playable skip d (n ∷ ns) source =
    let rest = first_playable skip d ns source in
    if not (skip n) && is_some (type_of n)
    then some (record { directory = d; name = n; source = source })
    else rest

with_library : Directory → Option Directory → List Directory
with_library d none = d ∷ []
with_library d (some l) = d ∷ l ∷ []

-- `"/" in name or "\\" in name`
unfoldable pub has_separator : String → Bool
has_separator name = any (λ c. c == b'/' || c == b'\\') (codes name)

named_by : Option String → List Directory → Source → Option Choice
named_by none search source = none
named_by (some name) search source =
    if str_eq name "" || has_separator name then none else find_in search name source

unfoldable pub try_selected_marker : Directory → List Directory → Source → Option Choice
unfolding named_by
try_selected_marker d search source = named_by d.marker search source

explicit_choice : Settings → Option Choice
unfolding with_library
explicit_choice s =
    if str_eq s.asset_name ""
    then none
    else find_in (with_library s.bundle s.library) s.asset_name explicit

-- In the library the marker's file is looked for in the library alone.
library_marker : Option Directory → Option Choice
library_marker none = none
library_marker (some l) = try_selected_marker l (l ∷ []) selected_library

library_first : Option Directory → Option Choice
library_first none = none
library_first (some l) = first_playable (λ n. str_eq n selected_marker) l l.names library_auto

builtin_choice : Directory → Option Choice
builtin_choice d =
    if has_file d builtin_name
    then some (record { directory = d; name = builtin_name; source = builtin })
    else none

-- Try the next step only where the one before found nothing.
abbrev pub or_else {ℓ} : {A : Type ℓ} → Option A → Option A → Option A
or_else (some a) o = some a
or_else none o = o

unfoldable pub choose : Settings → Option Choice
unfolding explicit_choice library_marker library_first builtin_choice with_library
choose s = or_else (explicit_choice s) (
    or_else (library_marker s.library) (
      or_else (try_selected_marker s.bundle (with_library s.bundle s.library) selected_bundle) (
        or_else (first_playable is_reserved s.bundle s.bundle.names bundle_auto)
          (or_else (library_first s.library) (builtin_choice s.bundle)))))

-- `_set`, or the reset where nothing was found
unfoldable pub set_choice : Option Choice → FallbackBundle
set_choice none = record { asset_path = none; asset_type = none; source = nothing_found }
set_choice (some c) = record {
  asset_path = some (path_in c.directory c.name);
  asset_type = type_of c.name;
  source = c.source;
}

unfoldable pub resolve : Settings → FallbackBundle
resolve s = set_choice (choose s)

-- `validate` raises where there is no asset.
unfoldable pub validate : Settings → Option FallbackBundle
validate s = if is_some (resolve s).asset_path then some (resolve s) else none

path_changed : Option String → Option String → Bool
path_changed none none = false
path_changed (some p) (some q) = not (str_eq p q)
path_changed _ _ = true

unfoldable pub refresh : Settings → FallbackBundle → FallbackBundle × Bool
unfolding path_changed
refresh s b = (resolve s, path_changed (resolve s).asset_path b.asset_path)
