-- ===== src/Dashboard/Fallback.antt =====
-- services/dashboard-api/dashboard_api/routers/fallback.py: the operator's choice of a fallback asset,
-- in the directory that the player reads as its library. `strip` is Python's `str.strip`.
use adaptive_advertisement.Common.{
  ℕ, String, Bool, false, not, ◌&&◌, ◌||◌, Option, none, some, List, [], ◌∷◌, map, ◌==◌,
  if◌then◌else◌, any, str_eq,
}
use adaptive_advertisement.Player.Fallback.{
  AssetType, image, video, Directory, codes, suffix, lower, same_codes, selected_marker, has_file,
  has_separator,
}
use adaptive_advertisement.Dashboard.Manifests.{Response, success, http_error}

-- `Path(name).suffix.lower()`
unfoldable pub extension : String → List ℕ
extension name = map lower (suffix (codes name))

has_extension : List String → String → Bool
unfolding extension
has_extension allowed name = any (λ e. same_codes (extension name) (codes e)) allowed

-- `_ALLOWED_EXTENSIONS`
abbrev pub allowed_extensions : List String
allowed_extensions = ".png" ∷ ".jpg" ∷ ".jpeg" ∷ ".gif" ∷ ".bmp" ∷ ".webp" ∷ ".mp4" ∷ ".webm" ∷ []

unfoldable pub is_allowed : String → Bool
unfolding has_extension
is_allowed name = has_extension allowed_extensions name

starts_with_dot : List ℕ → Bool
starts_with_dot [] = false
starts_with_dot (c ∷ cs) = c == b'.'

unfoldable pub asset_type : String → AssetType
unfolding has_extension
asset_type name = if has_extension (".mp4" ∷ ".webm" ∷ []) name then video else image

-- `_current_selection`: the marker is the stripped text of the file.
unfoldable pub current_selection : Directory → Option String
current_selection lib = elim lib.marker [
  | none ↦ none
  | some val ↦ if str_eq val "" then none else some val
]

pub record FallbackAsset : Type 0 where
  pub name : String
  pub asset_type : AssetType
  pub is_active : Bool

is_selected : Option String → String → Bool
is_selected none name = false
is_selected (some val) name = str_eq name val

is_listed : String → Bool
unfolding starts_with_dot
is_listed name =
    not (str_eq name selected_marker || (str_eq name ".gitkeep" || starts_with_dot (codes name)))
    && is_allowed name

assets_of : Option String → List String → List FallbackAsset
unfolding is_listed is_selected
assets_of selected [] = []
assets_of selected (n ∷ ns) =
    let rest = assets_of selected ns in
    if is_listed n
    then record { name = n; asset_type = asset_type n; is_active = is_selected selected n } ∷ rest
    else rest

unfoldable pub list_fallback_assets : Directory → List FallbackAsset × Option String
unfolding assets_of
list_fallback_assets lib = (assets_of (current_selection lib) lib.names, current_selection lib)

-- The guard against names outside the directory.
unfoldable pub is_invalid : String → Bool
unfolding starts_with_dot
is_invalid name = str_eq name "" || (has_separator name || starts_with_dot (codes name))

-- The directory afterwards is as the player reads it, with the text of the marker stripped.
unfoldable pub activate_fallback_asset :
    (strip : String → String) (is_file : String → Bool)
    → String
    → Directory
    → Response String × Directory
activate_fallback_asset strip is_file name lib =
    if is_invalid name
    then (http_error 400, lib)
    else if not (is_allowed name)
    then (http_error 400, lib)
    else if not (has_file lib name && is_file name)
    then (http_error 404, lib)
    else (success name, record lib { marker = some (strip name) })

unfoldable pub clear_fallback_selection : Directory → Directory
clear_fallback_selection lib = record lib { marker = none }
