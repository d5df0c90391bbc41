-- ===== src/Manifest.antt =====
-- What the player and the creative service read of a creative manifest (ICD-5): the keys that
-- services/player/player/manifest_store.py, services/player/player/main.py and
-- services/creative/creative/manifest_store.py look up. A missing key is `none`.
use adaptive_advertisement.Common.{ℕ, String, Bool, Option, List, ◌&&◌}
use adaptive_advertisement.Common.Codec.{truthy}

pub record Item : Type 0 where
  pub asset_id : String
  pub asset_type : String
  pub duration_ms : ℕ
  pub loop : Option Bool

pub record Manifest : Type 0 where
  pub manifest_id : String
  pub approved_at : Option String
  pub approved_by : Option String
  pub expires_at : Option String
  pub items : List Item

-- `datetime.fromisoformat(text.replace("Z", "+00:00"))`: a point in time, a time without a zone
-- (which Python refuses to compare with an aware one), or a ValueError with its text.
pub data Expiry : Type 0 where
  aware : ℕ → Expiry
  naive : Expiry
  malformed : String → Expiry

-- `manifest.get("approved_at") and manifest.get("approved_by")`
unfoldable pub is_approved : Manifest → Bool
is_approved m = truthy m.approved_at && truthy m.approved_by
