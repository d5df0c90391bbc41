-- ===== src/Dashboard/Snapshots/Withholding.antt =====
-- What the sink keeps out of the table.
use adaptive_advertisement.Common.{◌≡◌, true, Option, none}
use adaptive_advertisement.Decision.Signal.{Bin}
use adaptive_advertisement.Dashboard.Snapshots.{AudienceSnapshot}

-- A row of suppressed demographics has no value in any bin.
abbrev pub IsWithheld : AudienceSnapshot → Type 0
IsWithheld s = s.demographics_suppressed ≡ true → (b : Bin) → s.bins b ≡ none
