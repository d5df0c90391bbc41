-- ===== src/System/Fallbacks.antt =====
-- The operator's fallback asset (dashboard-api, routers/fallback.py) and what the player chooses
-- (services/player/player/fallback.py).
use adaptive_advertisement.Common.{
  String, ◌≡◌, ◌≢◌, ap, ◌∙◌, Bool, true, false, none, some, arith, str_eq, is_some,
}
use adaptive_advertisement.Player.Fallback.{
  Directory, Settings, Choice, selected_library, type_of, has_file, has_separator, find_in,
  try_selected_marker, choose,
}
use adaptive_advertisement.Player.Fallback.Selection.{choose-IsPlayable}
use adaptive_advertisement.Dashboard.Manifests.{success}
use adaptive_advertisement.Dashboard.Fallback.{is_invalid, activate_fallback_asset}

-- What a successful activation has checked.
record IsActivated (strip : String → String) (name : String) (lib after : Directory) : Type 0 where
  nonempty : str_eq name "" ≡ false
  inside : has_separator name ≡ false
  there : has_file lib name ≡ true
  marked : after ≡ record lib { marker = some (strip name) }

activated :
    (strip : String → String) (is_file : String → Bool) (name : String) (lib after : Directory)
    → activate_fallback_asset strip is_file name lib ≡ (success name, after)
    → IsActivated strip name lib after
unfolding activate_fallback_asset is_invalid
activated strip is_file name lib after e = ground arith

-- With the marker on a file that the player can show.
choose_marked :
    (s : Settings) (lib : Directory) (name : String)
    → str_eq s.asset_name "" ≡ true
    → str_eq name "" ≡ false
    → has_separator name ≡ false
    → has_file lib name ≡ true
    → is_some (type_of name) ≡ true
    → choose (record s { library = some (record lib { marker = some name }) })
      ≡ some (record {
        directory = record lib { marker = some name };
        name = name;
        source = selected_library;
      })
unfolding choose try_selected_marker find_in has_file
choose_marked s lib name blank nonempty inside there typed =
    rw (blank, nonempty, inside, there, typed)

-- An asset that the dashboard has activated is what the player chooses, if the player knows its
-- extension, has no explicit name in its settings, and the name has no blanks around it. If the player
-- does not know the extension, it never chooses the asset, although the dashboard has answered with
-- success.
pub activated_asset_chosen :
    (strip : String → String) (is_file : String → Bool) (name : String) (lib after : Directory)
    (s : Settings)
    → activate_fallback_asset strip is_file name lib ≡ (success name, after)
    → strip name ≡ name
    → str_eq s.asset_name "" ≡ true
    → (is_some (type_of name) ≡ true
        → choose (record s { library = some after })
          ≡ some (record { directory = after; name = name; source = selected_library }))
      × (type_of name ≡ none
          → (c : Choice) → choose (record s { library = some after }) ≡ some c
          → c.name ≢ name)
activated_asset_chosen strip is_file name lib after s e bare blank =
    let a = activated strip is_file name lib after e in
    let at_name = a.marked ∙ ap (λ n. record lib { marker = some n }) bare in
    (
      λ typed. rw at_name (choose_marked s lib name blank a.nonempty a.inside a.there typed),
      λ untyped c h same. cc (
        (choose-IsPlayable (record s { library = some after }) c h).playable,
        ap (λ n. is_some (type_of n)) same,
        ap is_some untyped,
      ),
    )
