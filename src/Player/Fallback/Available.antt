-- ===== src/Player/Fallback/Available.antt =====
-- services/player/player/fallback.py: `list_available`, the assets of the bundle and the library.
use adaptive_advertisement.Common.{String, Bool, Option, none, some, List, [], ◌∷◌, ◌++◌, opt_eq}
use adaptive_advertisement.Player.Fallback.{
  AssetType, Directory, Settings, FallbackBundle, type_of, path_in,
}

pub record Available : Type 0 where
  pub path : String
  pub name : String
  pub asset_type : AssetType
  -- "bundle" or "library"
  pub source : String
  pub is_active : Bool

add_typed :
    Option String
    → (source : String) → Directory
    → String
    → Option AssetType
    → List Available
    → List Available
add_typed active source d name none rest = rest
add_typed active source d name (some t) rest =
    record {
      path = path_in d name;
      name = name;
      asset_type = t;
      source = source;
      is_active = opt_eq active (path_in d name);
    }
    ∷ rest

unfoldable pub available_in :
    Option String → (source : String) → Directory → List String → List Available
unfolding add_typed
available_in active source d [] = []
available_in active source d (n ∷ ns) =
    add_typed active source d n (type_of n) (available_in active source d ns)

library_available : Option String → Option Directory → List Available
library_available active none = []
library_available active (some l) = available_in active "library" l l.names

unfoldable pub list_available : Settings → FallbackBundle → List Available
unfolding library_available
list_available s b =
    available_in b.asset_path "bundle" s.bundle s.bundle.names
    ++ library_available b.asset_path s.library
