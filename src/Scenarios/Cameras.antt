-- ===== src/Scenarios/Cameras.antt =====
-- Runs of the camera service.
use adaptive_advertisement.Common.{Bool, true, List, [], ◌∷◌}
use adaptive_advertisement.Camera.Reopen.{ReopenLoop}
use adaptive_advertisement.Camera.Run.{
  RawMeta, Event, opened, not_found, metadata, read_error, shutdown, new, run,
}
use adaptive_advertisement.Camera.Run.Privacy.{IsClean, published-IsClean}
use adaptive_advertisement.Camera.Run.Phases.{Inv, service-Inv}

abbrev reopen_loop : ReopenLoop
reopen_loop = record { initial_ms = 500; max_ms = 8_000; enabled = true; attempt = 0 }

abbrev accepts : RawMeta → Bool
accepts m = true

abbrev counted : RawMeta
counted = record { keys = "person_count" ∷ "confidence_mean" ∷ []; values = 3 ∷ 9_000 ∷ [] }

abbrev pictured : RawMeta
pictured = record { keys = "person_count" ∷ "snapshot" ∷ []; values = 3 ∷ 0 ∷ [] }

abbrev events : List Event
events =
    not_found
    ∷ not_found
    ∷ opened 4_000
    ∷ metadata 4_100 (counted ∷ pictured ∷ [])
    ∷ read_error
    ∷ not_found
    ∷ opened 9_000
    ∷ shutdown
    ∷ []

published-IsClean_example : IsClean (run accepts events (new reopen_loop)).published
published-IsClean_example = published-IsClean accepts reopen_loop events

service-Inv_example : Inv (run accepts events (new reopen_loop))
service-Inv_example = service-Inv accepts reopen_loop events
