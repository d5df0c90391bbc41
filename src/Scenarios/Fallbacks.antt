-- ===== src/Scenarios/Fallbacks.antt =====
-- Selections of a fallback asset.
use adaptive_advertisement.Common.{String, none, List, [], ◌∷◌}
use adaptive_advertisement.Player.Fallback.{Directory, Settings, builtin_name}

abbrev directory : List String → Directory
directory names = record { path = "/assets"; names = names; marker = none }

abbrev settings : List String → Settings
settings names = record { asset_name = ""; bundle = directory names; library = none }

abbrev pub bare : Settings
bare = settings (".gitkeep" ∷ builtin_name ∷ [])
