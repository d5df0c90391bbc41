-- ===== src/Audience/Consumer.antt =====
-- services/audience-state/audience_state/observation_consumer.py: what enters the window.
pub mod Intake
use adaptive_advertisement.Common.{ℕ, ◌+◌, String, Bool, true, false, List, [], if◌then◌else◌}
use adaptive_advertisement.Common.Codec.{
  Codec, Received, invalid_json, invalid_schema, message, receive,
}
use adaptive_advertisement.Seen.{is_seen, record_id}
use adaptive_advertisement.Audience.Window.{Observation, ObservationWindow, add, observation_count}

pub record ObservationConsumer : Type 0 where
  pub window : ObservationWindow
  pub seen_ids : List String
  pub total_received : ℕ
  pub total_rejected : ℕ

unfoldable pub new : ObservationWindow → ObservationConsumer
new w = record { window = w; seen_ids = []; total_received = 0; total_rejected = 0 }

accept : ObservationConsumer → Observation → (now : ℕ) → ObservationConsumer × Bool
unfolding add
accept c o now = if is_seen o.message_id c.seen_ids then (c, false) else (
  record {
    window = add now o c.window;
    seen_ids = record_id o.message_id c.seen_ids;
    total_received = c.total_received + 1;
    total_rejected = c.total_rejected;
  },
  true,
)

process_received :
    ObservationConsumer → Received Observation → (now : ℕ) → ObservationConsumer × Bool
unfolding accept
process_received c invalid_json now = (record c { total_rejected = c.total_rejected + 1 }, false)
process_received c invalid_schema now = (record c { total_rejected = c.total_rejected + 1 }, false)
process_received c (message o) now = accept c o now

unfoldable pub process :
    (codec : Codec Observation)
    → ObservationConsumer
    → codec.Raw
    → (now : ℕ) → ObservationConsumer × Bool
unfolding process_received
process codec c raw now = process_received c (receive codec raw) now

pub record Status : Type 0 where
  pub total_received : ℕ
  pub total_rejected : ℕ
  pub observations_in_window : ℕ

-- Counting prunes the window.
unfoldable pub status : (now : ℕ) → ObservationConsumer → ObservationConsumer × Status
status now c =
    let (w, n) = observation_count now c.window in
    (
      record c { window = w },
      record {
        total_received = c.total_received;
        total_rejected = c.total_rejected;
        observations_in_window = n;
      },
    )
