-- ===== src/Decision/Gateway/Sends.antt =====
-- What all the deliveries of one call of the gateway have in common.
use adaptive_advertisement.Common.{
  ℕ, ◌+◌, String, ◌≡◌, refl, inl, inr, Option, none, some, List, [], ◌∷◌, map, filter, All, ◌==◌,
  if◌then◌else◌,
}
use adaptive_advertisement.Player.Command.{activate_creative, freeze, Activation}
use adaptive_advertisement.Decision.Gateway.{
  Gateway, Network, Payload, activation, freezing, Delivery, broadcast, build, type_of,
  activation_of, send_freeze, send_activate_creative, non_empty,
}
use adaptive_advertisement.Decision.Gateway.Sequence.{broadcast_exact}

All-map :
    (P : Delivery → Type 0) (f : ℕ → Delivery) (xs : List ℕ)
    → ((x : ℕ) → P (f x))
    → All P (map f xs)
All-map P f [] h = tt
All-map P f (x ∷ xs) h = (h x, All-map P f xs h)

-- What holds of the command on every connection holds of all that a broadcast sends.
pub broadcast-All :
    (P : Delivery → Type 0) (net : Network) (g : Gateway) (p : Payload)
    → ((ws : ℕ) → P (record { to = ws; command = build net (g.sequence + 1) p }))
    → All P (broadcast net g p).2
broadcast-All P net g p h = elim (broadcast_exact net g p) [
  | inl sent ↦ rw sent.deliveries (
      All-map P (λ (ws : ℕ). record { to = ws; command = build net (g.sequence + 1) p })
        (filter net.delivers g.connections) h)
  | inr unsent ↦ rw unsent.deliveries tt
]

abbrev pub IsFreeze : Delivery → Type 0
IsFreeze d = d.command.command_type ≡ freeze

pub send_freeze-All :
    (net : Network) (g : Gateway) (reason : Option String)
    → All IsFreeze (send_freeze net g reason).2
unfolding send_freeze build type_of
send_freeze-All net g reason =
    broadcast-All IsFreeze net g (freezing (non_empty reason)) (λ ws. refl)

-- An activation with the manifest, the dwell time and, if it is not 0, the cooldown time.
pub record IsActivationOf (m : String) (dwell cooldown : ℕ) (d : Delivery) : Type 0 where
  pub payload : Activation
  pub type_is : d.command.command_type ≡ activate_creative
  pub payload_is : d.command.activation ≡ some payload
  pub manifest_is : payload.manifest_id ≡ m
  pub dwell_is : payload.min_dwell_ms ≡ dwell
  pub cooldown_is : payload.cooldown_ms ≡ (if cooldown == 0 then none else some cooldown)

pub send_activate_creative-All :
    (net : Network) (g : Gateway) (m : String) (dwell cooldown : ℕ) (rationale : Option String)
    → All
        (IsActivationOf m dwell cooldown)
        (send_activate_creative net g m dwell cooldown rationale).2
unfolding send_activate_creative build type_of activation_of
send_activate_creative-All net g m dwell cooldown rationale =
    let payload : Activation = record {
      manifest_id = m;
      min_dwell_ms = dwell;
      cooldown_ms = if cooldown == 0 then none else some cooldown;
      rationale = non_empty rationale;
    } in
    broadcast-All (IsActivationOf m dwell cooldown) net g (activation payload) (λ ws. record {
      payload = payload;
      type_is = refl;
      payload_is = refl;
      manifest_is = refl;
      dwell_is = refl;
      cooldown_is = refl;
    })

-- The command of a delivery is a freeze with the gateway's next number.
pub record IsFreezeOf (net : Network) (g : Gateway) (d : Delivery) : Type 0 where
  pub reason : Option String
  pub command_is : d.command ≡ build net (g.sequence + 1) (freezing reason)

pub send_freeze-IsFreezeOf :
    (net : Network) (g : Gateway) (reason : Option String)
    → All (IsFreezeOf net g) (send_freeze net g reason).2
unfolding send_freeze
send_freeze-IsFreezeOf net g reason =
    broadcast-All (IsFreezeOf net g) net g (freezing (non_empty reason))
      (λ ws. record { reason = non_empty reason; command_is = refl })

-- The command of a delivery is an activation with the gateway's next number.
pub record IsNextActivation (net : Network) (g : Gateway) (m : String) (dwell : ℕ) (d : Delivery)
    : Type 0 where
  pub payload : Activation
  pub command_is : d.command ≡ build net (g.sequence + 1) (activation payload)
  pub manifest_is : payload.manifest_id ≡ m
  pub dwell_is : payload.min_dwell_ms ≡ dwell

pub send_activate_creative-IsNextActivation :
    (net : Network) (g : Gateway) (m : String) (dwell cooldown : ℕ) (rationale : Option String)
    → All
        (IsNextActivation net g m dwell)
        (send_activate_creative net g m dwell cooldown rationale).2
unfolding send_activate_creative
send_activate_creative-IsNextActivation net g m dwell cooldown rationale =
    let payload : Activation = record {
      manifest_id = m;
      min_dwell_ms = dwell;
      cooldown_ms = if cooldown == 0 then none else some cooldown;
      rationale = non_empty rationale;
    } in
    broadcast-All (IsNextActivation net g m dwell) net g (activation payload)
      (λ ws. record { payload = payload; command_is = refl; manifest_is = refl; dwell_is = refl })
