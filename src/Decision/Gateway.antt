-- ===== src/Decision/Gateway.antt =====
-- services/decision-optimizer/decision_optimizer/player_gateway.py: commands for the players.
-- A connection is a number. `uuid4()` and the outcome of each `send` are parameters, and so is the
-- validator of the jsonschema package. The message is the command that the player reads.
pub mod Sequence
pub mod Sends
use adaptive_advertisement.Common.{
  ℕ, ◌+◌, ◌-◌, String, Bool, true, false, not, ◌&&◌, Option, none, some, List, [], ◌∷◌, ◌++◌, map,
  filter, any, length, ◌==◌, if◌then◌else◌, str_eq,
}
use adaptive_advertisement.Common.Outcome.{Outcome, ok, raised, value_error}
use adaptive_advertisement.Common.Codec.{truthy}
use adaptive_advertisement.Player.Command.{
  CommandType, activate_creative, freeze, safe_mode, Activation, Command,
}

pub record Gateway : Type 0 where
  pub connections : List ℕ
  pub sequence : ℕ

abbrev pub new : Gateway
new = record { connections = []; sequence = 0 }

-- What lies outside: fresh identifiers by sequence number, the validator, and whether a send to a
-- connection succeeds.
pub record Network : Type 0 where
  pub uuid : ℕ → String
  pub iter_errors : Command → List String
  pub delivers : ℕ → Bool

-- The payload of a command, by its type.
pub data Payload : Type 0 where
  activation : Activation → Payload
  freezing : Option String → Payload
  safe : Option String → Payload

type_of : Payload → CommandType
type_of (activation a) = activate_creative
type_of (freezing r) = freeze
type_of (safe r) = safe_mode

activation_of : Payload → Option Activation
activation_of (activation a) = some a
activation_of _ = none

freeze_reason_of : Payload → Option String
freeze_reason_of (freezing r) = r
freeze_reason_of _ = none

safe_mode_reason_of : Payload → Option String
safe_mode_reason_of (safe r) = r
safe_mode_reason_of _ = none

unfoldable pub build : Network → ℕ → Payload → Command
unfolding type_of activation_of freeze_reason_of safe_mode_reason_of
build net seq p = record {
  command_id = net.uuid seq;
  sequence_number = seq;
  command_type = type_of p;
  activation = activation_of p;
  freeze_reason = freeze_reason_of p;
  safe_mode_reason = safe_mode_reason_of p;
}

validated : Gateway → Command → List String → Gateway × Outcome Command
validated g c [] = (record g { sequence = g.sequence + 1 }, ok c)
-- the number is given back: the command will not be sent
validated g c (e ∷ es) = (record g { sequence = g.sequence + 1 - 1 }, raised value_error)

unfoldable pub next_command : Network → Gateway → Payload → Gateway × Outcome Command
unfolding validated
next_command net g p = let c = build net (g.sequence + 1) p in validated g c (net.iter_errors c)

-- One send to one connection.
pub record Delivery : Type 0 where
  pub to : ℕ
  pub command : Command

deliver : Network → Gateway → Outcome Command → Gateway × ℕ × List Delivery
deliver net g (raised e) = (g, 0, [])
deliver net g (ok c) =
    let alive = filter net.delivers g.connections in
    (
      record g { connections = alive },
      length alive,
      map (λ (ws : ℕ). record { to = ws; command = c }) alive,
    )

-- The gateway afterwards, the number of players reached, and what they got.
unfoldable pub broadcast : Network → Gateway → Payload → Gateway × ℕ × List Delivery
unfolding deliver
broadcast net g p = elim g.connections [
  | [] ↦ (g, 0, [])
  | ws ∷ rest ↦ let (g', r) = next_command net g p in deliver net g' r
]

-- `if rationale:`, `if reason:`
non_empty : Option String → Option String
non_empty o = if truthy o then o else none

unfoldable pub send_activate_creative :
    Network
    → Gateway
    → (manifest_id : String) → (min_dwell_ms cooldown_ms : ℕ) → Option String
    → Gateway × ℕ × List Delivery
unfolding non_empty
send_activate_creative net g m dwell cooldown rationale = broadcast net g (
    activation (record {
      manifest_id = m;
      min_dwell_ms = dwell;
      cooldown_ms = if cooldown == 0 then none else some cooldown;
      rationale = non_empty rationale;
    }))

unfoldable pub send_freeze : Network → Gateway → Option String → Gateway × ℕ × List Delivery
unfolding non_empty
send_freeze net g reason = broadcast net g (freezing (non_empty reason))

unfoldable pub send_safe_mode : Network → Gateway → Option String → Gateway × ℕ × List Delivery
unfolding non_empty
send_safe_mode net g reason = broadcast net g (safe (non_empty reason))

-- A player connects on the right path (`_connections` is a set), or leaves.
unfoldable pub connect : Option String → (path : String) → (ws : ℕ) → Gateway → Gateway
connect asked path ws g =
    if wrong_path asked path
    then g
    else if any (λ c. c == ws) g.connections
    then g
    else record g { connections = ws ∷ g.connections }
  where
    wrong_path : Option String → String → Bool
    wrong_path none path = false
    wrong_path (some p) path = truthy (some p) && not (str_eq p path)

unfoldable pub disconnect : ℕ → Gateway → Gateway
disconnect ws g = record g { connections = filter (λ c. not (c == ws)) g.connections }
