-- ===== src/Scenarios/Manifests.antt =====
-- Manifests, the two stores that hold them, and the memory of identifiers.
use adaptive_advertisement.Common.{◌≡◌, refl, String, none, some, List, [], ◌∷◌, lookup}
use adaptive_advertisement.Common.Outcome.{ok}
use adaptive_advertisement.Manifest.{Manifest, Item, Expiry, aware, is_approved}
use adaptive_advertisement.Player.Manifests.{check_manifest}
use adaptive_advertisement.Creative.Store
use adaptive_advertisement.Creative.Store.{found, unapproved, load_directory, get}
use adaptive_advertisement.Creative.Store.Laws.{served_may_render}

abbrev pub clip : Item
clip = record { asset_id = "clip"; asset_type = "video"; duration_ms = 8_000; loop = none }

abbrev pub lobby : Manifest
lobby = record {
  manifest_id = "lobby";
  approved_at = some "2026-01-02T00:00:00Z";
  approved_by = some "operator";
  expires_at = some "2026-03-01T00:00:00Z";
  items = clip ∷ [];
}

-- Every date is at 90, and every manifest is valid.
abbrev pub expiry_of : String → Expiry
expiry_of text = aware 90

abbrev pub accepts : Manifest → List String
accepts m = []

abbrev stocked : Store.Store
stocked = record { manifests = ("lobby", lobby) ∷ []; load_errors = 1 }

served_may_render_example :
    (lookup "lobby" stocked.manifests ≡ some lobby) × (check_manifest expiry_of 50 lobby ≡ ok none)
unfolding lookup get Store.is_expired is_approved
served_may_render_example = served_may_render expiry_of 50 "lobby" stocked lobby refl
