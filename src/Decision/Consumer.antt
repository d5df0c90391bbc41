-- ===== src/Decision/Consumer.antt =====
-- services/decision-optimizer/decision_optimizer/signal_consumer.py: the latest valid signal.
-- The clock (`time.monotonic()`) is in milliseconds, as `signal_age_ms` gives it.
pub mod Freshness
use adaptive_advertisement.Common.{
  ℕ, ◌+◌, ◌-◌, String, Bool, true, false, Option, none, some, List, [], if◌then◌else◌,
}
use adaptive_advertisement.Common.Codec.{
  Codec, Received, invalid_json, invalid_schema, message, receive,
}
use adaptive_advertisement.Seen.{is_seen, record_id}
use adaptive_advertisement.Decision.Signal.{Signal}

pub record SignalConsumer : Type 0 where
  pub latest : Option Signal
  pub latest_received_at : Option ℕ
  pub seen_ids : List String
  pub total_received : ℕ
  pub total_rejected : ℕ

abbrev pub new : SignalConsumer
new = record {
  latest = none;
  latest_received_at = none;
  seen_ids = [];
  total_received = 0;
  total_rejected = 0;
}

accept : SignalConsumer → Signal → (now : ℕ) → SignalConsumer × Bool
accept c s now = if is_seen s.message_id c.seen_ids then (c, false) else (
  record {
    latest = some s;
    latest_received_at = some now;
    seen_ids = record_id s.message_id c.seen_ids;
    total_received = c.total_received + 1;
    total_rejected = c.total_rejected;
  },
  true,
)

process_received : SignalConsumer → Received Signal → (now : ℕ) → SignalConsumer × Bool
unfolding accept
process_received c invalid_json now = (record c { total_rejected = c.total_rejected + 1 }, false)
process_received c invalid_schema now = (record c { total_rejected = c.total_rejected + 1 }, false)
process_received c (message s) now = accept c s now

unfoldable pub process :
    (codec : Codec Signal) → SignalConsumer → codec.Raw → (now : ℕ) → SignalConsumer × Bool
unfolding process_received
process codec c raw now = process_received c (receive codec raw) now

-- `int((monotonic() - received_at) * 1000)`
unfoldable pub signal_age_ms : SignalConsumer → (now : ℕ) → Option ℕ
signal_age_ms c now = elim c.latest_received_at [ none ↦ none | some t ↦ some (now - t) ]

pub record Status : Type 0 where
  pub latest_message_id : Option String
  pub signal_age_ms : Option ℕ
  pub total_received : ℕ
  pub total_rejected : ℕ

unfoldable pub status : SignalConsumer → (now : ℕ) → Status
status c now = record {
  latest_message_id = elim c.latest [ none ↦ none | some s ↦ some s.message_id ];
  signal_age_ms = signal_age_ms c now;
  total_received = c.total_received;
  total_rejected = c.total_rejected;
}
