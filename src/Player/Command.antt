-- ===== src/Player/Command.antt =====
-- services/player/player/command_handler.py: commands of the decision optimizer (ICD-4).
-- A command is what the handler reads of a message that the schema accepts. The schema demands
-- an identifier, a sequence number from 0 up and one of the four types; it does not demand the
-- payload that belongs to the type. `last_sequence` is none for the -1 of a new session.
pub mod Ordering
pub mod Approval
pub mod Machine
use adaptive_advertisement.Common.{
  ℕ, ◌*◌, min, String, Bool, true, false, not, Option, none, some, List, [], ◌∷◌, ◌++◌, leb,
  if◌then◌else◌, is_some,
}
use adaptive_advertisement.Common.Outcome.{Outcome, ok, raised, key_error, ◌>>=◌}
use adaptive_advertisement.Common.Codec.{
  Codec, Received, invalid_json, invalid_schema, message, receive,
}
use adaptive_advertisement.Seen.{is_seen, record_id}
use adaptive_advertisement.Manifest.{Manifest, Expiry}
use adaptive_advertisement.Player.Manifests
use adaptive_advertisement.Player.Manifests.{check_manifest}
use adaptive_advertisement.Player.State.{
  PlayerState, fallback, Action, show_fallback, hold, TransitionResult, StateMachine, Readings,
  is_state, on_activate_creative, on_freeze, on_safe_mode, on_clear_safe_mode, on_connection_lost,
}

pub data CommandType : Type 0 where
  activate_creative freeze safe_mode clear_safe_mode : CommandType

pub record Activation : Type 0 where
  pub manifest_id : String
  pub min_dwell_ms : ℕ
  pub cooldown_ms : Option ℕ
  pub rationale : Option String

pub record Command : Type 0 where
  pub command_id : String
  pub sequence_number : ℕ
  pub command_type : CommandType
  pub activation : Option Activation
  -- `freeze.reason` and `safe_mode.reason`: a missing payload reads like a missing reason
  pub freeze_reason : Option String
  pub safe_mode_reason : Option String

pub record PlayEvent : Type 0 where
  pub manifest_id : String
  pub reason : Option String
  pub prev_manifest_id : Option String

pub record CommandHandler : Type 0 where
  pub sm : StateMachine
  pub store : Manifests.Store
  -- what the publisher was given so far, if there is one
  pub publisher : Option (List PlayEvent)
  pub last_sequence : Option ℕ
  pub seen_command_ids : List String

-- What the commands read of the surroundings: the clocks, and `datetime.fromisoformat`.
pub record Surroundings : Type 0 where
  pub expiry_of : String → Expiry
  pub wall_clock : ℕ
  pub readings : Readings
  pub monotonic : ℕ

abbrev pub cooldown_of : Option ℕ → ℕ
cooldown_of none = 0
cooldown_of (some c) = c

-- A refusal that leaves the machine alone.
unfoldable pub rejected : StateMachine → String → TransitionResult
rejected sm why = record {
  accepted = false;
  new_state = sm.state;
  action = if not (is_state sm.state fallback) then hold else show_fallback;
  manifest_id = sm.active_manifest_id;
  reason = some why;
}

schedule_publish : Bool → PlayEvent → Option (List PlayEvent) → Option (List PlayEvent)
schedule_publish accepted e none = none
schedule_publish accepted e (some sent) = some (if accepted then sent ++ e ∷ [] else sent)

activate_checked :
    Surroundings → CommandHandler → Activation → Option String → CommandHandler × TransitionResult
unfolding schedule_publish
activate_checked env h p (some rejection) = (h, rejected h.sm rejection)
activate_checked env h p none =
    let (sm', result) =
      on_activate_creative h.sm p.manifest_id p.min_dwell_ms (cooldown_of p.cooldown_ms)
        env.readings in
    (
      record h {
        sm = sm';
        publisher =
            schedule_publish result.accepted
              (record {
                manifest_id = p.manifest_id;
                reason = p.rationale;
                prev_manifest_id = h.sm.active_manifest_id;
              })
              h.publisher;
      },
      result,
    )

activate_known :
    Surroundings
    → CommandHandler
    → Activation
    → Option Manifest
    → Outcome (CommandHandler × TransitionResult)
unfolding activate_checked
activate_known env h p none = ok (h, rejected h.sm "unknown_manifest")
activate_known env h p (some m) = check_manifest env.expiry_of env.wall_clock m >>= λ rejection.
    ok (activate_checked env h p rejection)

-- `payload["manifest_id"]` of a missing payload is a KeyError.
unfoldable pub handle_activate_creative :
    Surroundings → CommandHandler → Option Activation → Outcome (CommandHandler × TransitionResult)
unfolding activate_known
handle_activate_creative env h none = raised key_error
handle_activate_creative env h (some p) =
    activate_known env h p (Manifests.get p.manifest_id h.store)

abbrev with_machine :
    CommandHandler → StateMachine × TransitionResult → CommandHandler × TransitionResult
with_machine h (sm', r) = (record h { sm = sm' }, r)

dispatch_type :
    CommandType
    → Surroundings
    → CommandHandler
    → Command
    → Outcome (CommandHandler × TransitionResult)
dispatch_type activate_creative env h c = handle_activate_creative env h c.activation
dispatch_type freeze env h c = ok (with_machine h (on_freeze h.sm c.freeze_reason))
dispatch_type safe_mode env h c =
    ok (with_machine h (on_safe_mode h.sm c.safe_mode_reason env.monotonic))
dispatch_type clear_safe_mode env h c = ok (with_machine h (on_clear_safe_mode h.sm))

unfoldable pub dispatch :
    Surroundings → CommandHandler → Command → Outcome (CommandHandler × TransitionResult)
unfolding dispatch_type
dispatch env h c = dispatch_type c.command_type env h c

-- How `handle_raw` ends: it dropped the message, it has a transition to carry out, or an
-- exception left it.
pub data Handled : Type 0 where
  dropped : Handled
  transition : TransitionResult → Handled
  failed : Handled

-- What was recorded before an exception stays recorded.
settle : CommandHandler → Outcome (CommandHandler × TransitionResult) → CommandHandler × Handled
settle h (ok (h', r)) = (h', transition r)
settle h (raised e) = (h, failed)

-- `seq <= self._last_sequence`
unfoldable pub out_of_order : Option ℕ → ℕ → Bool
out_of_order none seq = false
out_of_order (some last) seq = leb seq last

unfoldable pub record_command : CommandHandler → Command → CommandHandler
record_command h c = record h {
  last_sequence = some c.sequence_number;
  seen_command_ids = record_id c.command_id h.seen_command_ids;
}

unfoldable pub handle_command : Surroundings → CommandHandler → Command → CommandHandler × Handled
unfolding settle
handle_command env h c =
    if is_seen c.command_id h.seen_command_ids
    then (h, dropped)
    else if out_of_order h.last_sequence c.sequence_number
    then (h, dropped)
    else settle (record_command h c) (dispatch env (record_command h c) c)

handle_received : Surroundings → CommandHandler → Received Command → CommandHandler × Handled
handle_received env h invalid_json = (h, dropped)
handle_received env h invalid_schema = (h, dropped)
handle_received env h (message c) = handle_command env h c

unfoldable pub handle_raw :
    (codec : Codec Command) → Surroundings → CommandHandler → codec.Raw → CommandHandler × Handled
unfolding handle_received
handle_raw codec env h raw = handle_received env h (receive codec raw)

unfoldable pub reset_session : CommandHandler → CommandHandler
reset_session h = record h { last_sequence = none }

-- `min(backoff * 2, WS_RECONNECT_MAX_BACKOFF_S)`, in milliseconds
unfoldable pub next_backoff : ℕ → ℕ → ℕ
next_backoff limit backoff = min (backoff * 2) limit
