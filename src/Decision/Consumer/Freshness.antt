-- ===== src/Decision/Consumer/Freshness.antt =====
-- What a run of raw messages leaves in the consumer.
use adaptive_advertisement.Common.{
  ℕ, ◌+◌, ◌≤◌, ◌≡◌, refl, ◌⊎◌, inl, inr, Bool, true, false, Bool-cases, some, arith, length,
  is_some,
}
use adaptive_advertisement.Common.Codec.{
  Codec, Received, invalid_json, invalid_schema, message, receive,
}
use adaptive_advertisement.Seen.{max_seen_ids, is_seen}
use adaptive_advertisement.Seen.Window.{length-record_id}
use adaptive_advertisement.Decision.Signal.{Signal}
use adaptive_advertisement.Decision.Consumer.{SignalConsumer, new, process_received, process}

-- A signal is there exactly if a time of receipt is, the counter says so too, and the identifiers
-- are bounded.
pub record Inv (c : SignalConsumer) : Type 0 where
  pub timed : is_some c.latest ≡ is_some c.latest_received_at
  pub counted : is_some c.latest ≡ false → c.total_received ≡ 0
  pub bounded : length c.seen_ids ≤ max_seen_ids

pub new-Inv : Inv new
new-Inv = ground arith

received-Inv :
    (c : SignalConsumer) (m : Received Signal) (now : ℕ) → Inv c → Inv (process_received c m now).0
unfolding process_received
received-Inv c invalid_json now h = ground arith
received-Inv c invalid_schema now h = ground arith
received-Inv c (message s) now h = ground (arith, length-record_id s.message_id c.seen_ids)

-- The new signal is the latest one, received now.
pub record IsAccepted (c : SignalConsumer) (s : Signal) (now : ℕ) (r : SignalConsumer × Bool)
    : Type 0 where
  pub fresh : is_seen s.message_id c.seen_ids ≡ false
  pub answer : r.1 ≡ true
  pub latest : r.0.latest ≡ some s
  pub received_at : r.0.latest_received_at ≡ some now
  pub received : r.0.total_received ≡ c.total_received + 1
  pub rejected : r.0.total_rejected ≡ c.total_rejected

-- The latest signal and its time stay.
pub record IsRefused (c : SignalConsumer) (r : SignalConsumer × Bool) : Type 0 where
  pub answer : r.1 ≡ false
  pub latest : r.0.latest ≡ c.latest
  pub received_at : r.0.latest_received_at ≡ c.latest_received_at
  pub received : r.0.total_received ≡ c.total_received
  pub seen : r.0.seen_ids ≡ c.seen_ids

received_exact :
    (c : SignalConsumer) (m : Received Signal) (now : ℕ)
    → ((s : Signal) × (m ≡ message s) × IsAccepted c s now (process_received c m now))
      ⊎ IsRefused c (process_received c m now)
unfolding process_received
received_exact c invalid_json now = inr (ground arith)
received_exact c invalid_schema now = inr (ground arith)
received_exact c (message s) now = elim (Bool-cases (is_seen s.message_id c.seen_ids)) [
  | inl old ↦ inr (ground arith)
  | inr fresh ↦ inl (s, refl, ground arith)
]

module _ (codec : Codec Signal) where
  pub process-Inv :
      (c : SignalConsumer) (raw : codec.Raw) (now : ℕ) → Inv c → Inv (process codec c raw now).0
  unfolding process
  process-Inv c raw now h = received-Inv c (receive codec raw) now h

  -- A message that is accepted is valid JSON, passes the schema and has a new identifier; it becomes
  -- the latest signal, received now. Any other leaves the latest signal, its time and the identifiers.
  pub process_exact :
      (c : SignalConsumer) (raw : codec.Raw) (now : ℕ)
      → ((s : Signal) × (receive codec raw ≡ message s)
          × IsAccepted c s now (process codec c raw now))
        ⊎ IsRefused c (process codec c raw now)
  unfolding process
  process_exact c raw now = received_exact c (receive codec raw) now
