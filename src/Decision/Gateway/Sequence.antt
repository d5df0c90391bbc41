-- ===== src/Decision/Gateway/Sequence.antt =====
-- Sequence numbers of the gateway, and how a player takes what it sends.
use adaptive_advertisement.Common.{
  ℕ, ◌+◌, ◌≤◌, String, ◌≡◌, refl, ◌⊎◌, inl, inr, false, Option, none, some, List, [], ◌∷◌, map,
  arith, length, filter,
}
use adaptive_advertisement.Seen.{is_seen}
use adaptive_advertisement.Player.Command.{
  CommandHandler, Surroundings, out_of_order, handle_command,
}
use adaptive_advertisement.Player.Command.Ordering.{IsTaken, handle_command-IsTaken}
use adaptive_advertisement.Decision.Gateway.{
  Gateway, Network, Payload, build, validated, next_command, Delivery, deliver, broadcast,
}

-- What a broadcast sends: nothing, with the gateway as it was but for the connections, or the next
-- number, the same command to every connection that is still there.
pub record IsSent (net : Network) (g : Gateway) (p : Payload) (r : Gateway × ℕ × List Delivery)
    : Type 0 where
  pub sequence : r.0.sequence ≡ g.sequence + 1
  pub connections : r.0.connections ≡ filter net.delivers g.connections
  pub count : r.1 ≡ length r.0.connections
  pub deliveries :
      r.2
      ≡ map
          (λ (ws : ℕ). record { to = ws; command = build net (g.sequence + 1) p })
          (filter net.delivers g.connections)

pub record IsUnsent (g : Gateway) (r : Gateway × ℕ × List Delivery) : Type 0 where
  pub gateway : r.0 ≡ g
  pub count : r.1 ≡ 0
  pub deliveries : r.2 ≡ []

validated_cases :
    (net : Network) (g : Gateway) (p : Payload) (errors : List String)
    → let (g', r) = validated g (build net (g.sequence + 1) p) errors in
      IsSent net g p (deliver net g' r) ⊎ IsUnsent g (deliver net g' r)
unfolding validated deliver
validated_cases net g p [] = inl (ground arith)
validated_cases net g p (e ∷ es) = inr (ground arith)

broadcast_with :
    (net : Network) (p : Payload) (connections : List ℕ) (sequence : ℕ)
    → let g : Gateway = record { connections = connections; sequence = sequence } in
      IsSent net g p (broadcast net g p) ⊎ IsUnsent g (broadcast net g p)
unfolding broadcast next_command
broadcast_with net p [] sequence = inr (ground arith)
broadcast_with net p (ws ∷ rest) sequence =
    let g : Gateway = record { connections = ws ∷ rest; sequence = sequence } in
    validated_cases net g p (net.iter_errors (build net (sequence + 1) p))

pub broadcast_exact :
    (net : Network) (g : Gateway) (p : Payload)
    → IsSent net g p (broadcast net g p) ⊎ IsUnsent g (broadcast net g p)
broadcast_exact net g p = broadcast_with net p g.connections g.sequence

-- The player has applied nothing beyond what the gateway has sent.
abbrev pub IsInSync : Gateway → CommandHandler → Type 0
IsInSync g h = (n : ℕ) → h.last_sequence ≡ some n → n ≤ g.sequence

pub in_order_of_sync :
    (o : Option ℕ) (n : ℕ) → ((m : ℕ) → o ≡ some m → m ≤ n) → out_of_order o (n + 1) ≡ false
unfolding out_of_order
in_order_of_sync none n h = refl
in_order_of_sync (some m) n h = ground (arith, h m refl)

-- A command that the gateway sends to a player in step with it is never dropped as out of order: if
-- its identifier is new to the player, the player takes it, and the two are in step afterwards.
pub sent-IsTaken :
    (net : Network) (g : Gateway) (p : Payload) (env : Surroundings) (h : CommandHandler)
    → IsSent net g p (broadcast net g p)
    → IsInSync g h
    → is_seen (net.uuid (g.sequence + 1)) h.seen_command_ids ≡ false
    → let c = build net (g.sequence + 1) p in
      IsTaken env h c × IsInSync (broadcast net g p).0 (handle_command env h c).0
unfolding build
sent-IsTaken net g p env h sent sync new =
    let t : IsTaken env h (build net (g.sequence + 1) p) =
      handle_command-IsTaken env h (build net (g.sequence + 1) p) new
        (in_order_of_sync h.last_sequence g.sequence sync) in
    (t, λ n e. ground (arith, t.last_after, sent.sequence))
