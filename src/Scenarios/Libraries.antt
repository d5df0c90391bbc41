-- ===== src/Scenarios/Libraries.antt =====
-- An asset that the dashboard activates in the player's library.
use adaptive_advertisement.Common.{◌≡◌, ◌≢◌, refl, true, none, some, is_some, [], ◌∷◌}
use adaptive_advertisement.Player.Fallback.{
  Directory, Settings, Choice, choose, has_file, has_separator, selected_library, type_of, suffix,
  lower, same_codes,
}
use adaptive_advertisement.Dashboard.Fallback.{activate_fallback_asset, is_invalid, is_allowed}
use adaptive_advertisement.System.Fallbacks.{activated_asset_chosen}

abbrev library : Directory
library = record { path = "/library"; names = "logo.gif" ∷ "logo.png" ∷ []; marker = none }

abbrev chosen_library : Directory
chosen_library = record library { marker = some "logo.gif" }

abbrev settings : Settings
settings = record {
  asset_name = "";
  bundle = record { path = "/assets"; names = []; marker = none };
  library = none;
}

-- A GIF is activated, and never shown.
activated_asset_chosen_example :
    (is_some (type_of "logo.gif") ≡ true
      → choose (record settings { library = some chosen_library })
        ≡ some
            (record { directory = chosen_library; name = "logo.gif"; source = selected_library }))
    × (type_of "logo.gif" ≡ none
        → (c : Choice) → choose (record settings { library = some chosen_library }) ≡ some c
        → c.name ≢ "logo.gif")
unfolding activate_fallback_asset is_invalid is_allowed has_file has_separator suffix lower
    same_codes
activated_asset_chosen_example =
    activated_asset_chosen (λ s. s) (λ n. true) "logo.gif" library chosen_library settings refl refl
      refl
