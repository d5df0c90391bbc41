-- ===== src/Audience/Consumer/Intake.antt =====
-- What a message does to the window, once and again.
use adaptive_advertisement.Common.{
  ℕ, ◌≤◌, ◌≡◌, refl, inl, inr, true, false, Bool-cases, arith, length,
}
use adaptive_advertisement.Common.Codec.{
  Codec, Received, invalid_json, invalid_schema, message, receive,
}
use adaptive_advertisement.Seen.{max_seen_ids, is_seen, record_id}
use adaptive_advertisement.Seen.Window.{record_id_new-IsRecent, IsRecent-is_seen}
use adaptive_advertisement.Audience.Window.{Observation}
use adaptive_advertisement.Audience.Consumer.{
  ObservationConsumer, accept, process_received, process,
}

replayed :
    (c : ObservationConsumer) (m : Received Observation) (now later : ℕ)
    → length c.seen_ids ≤ max_seen_ids
    → (process_received c m now).1 ≡ true
    → process_received (process_received c m now).0 m later ≡ ((process_received c m now).0, false)
unfolding process_received accept
replayed c invalid_json now later h e = ground (arith, e)
replayed c invalid_schema now later h e = ground (arith, e)
replayed c (message o) now later h e = elim (Bool-cases (is_seen o.message_id c.seen_ids)) [
  | inl old ↦ absurd (ground (arith, rw old at e))
  | inr fresh ↦
      let kept : is_seen o.message_id (record_id o.message_id c.seen_ids) ≡ true =
        IsRecent-is_seen o.message_id (record_id_new-IsRecent o.message_id c.seen_ids h fresh) in
      rw (fresh, kept) refl
]

-- A payload that was accepted by a consumer that remembers at most 5000 identifiers, and comes again
-- next, as a broker that delivers at least once may send it, is refused and changes nothing.
pub replay_ignored :
    (codec : Codec Observation) (c : ObservationConsumer) (raw : codec.Raw) (now later : ℕ)
    → length c.seen_ids ≤ max_seen_ids
    → (process codec c raw now).1 ≡ true
    → process codec (process codec c raw now).0 raw later ≡ ((process codec c raw now).0, false)
unfolding process
replay_ignored codec c raw now later h e = replayed c (receive codec raw) now later h e
