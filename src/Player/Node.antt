-- ===== src/Player/Node.antt =====
-- services/player/player/main.py and health.py: what the player does with a transition, and the
-- inputs that reach it. The renderer's backend is a parameter of each step: which items it manages to
-- play and which fallback assets it manages to show. A step says also whether an exception left it.
pub mod Shows
pub mod NeverBlank
pub mod Total
use adaptive_advertisement.Common.{
  ℕ, String, Bool, true, false, not, ◌&&◌, ◌||◌, Option, none, some, List, [], ◌∷◌, ◌++◌,
  if◌then◌else◌, is_some, str_eq,
}
use adaptive_advertisement.Common.Outcome.{Outcome, ok, raised, value_error, renderer_error}
use adaptive_advertisement.Common.Codec.{truthy}
use adaptive_advertisement.Manifest.{Item, Manifest}
use adaptive_advertisement.Player.Manifests
use adaptive_advertisement.Player.Manifests.{File, load_from_disk, reload}
use adaptive_advertisement.Player.Fallback.{FallbackBundle, Settings, validate, refresh}
use adaptive_advertisement.Player.State.{
  PlayerState, fallback, active, frozen, safe_mode, Action, play_manifest, show_fallback, hold,
  TransitionResult, StateMachine, new, is_state, on_safe_mode, on_clear_safe_mode,
  on_connection_lost,
}
use adaptive_advertisement.Player.Command.{
  Command, CommandHandler, Surroundings, Handled, dropped, transition, failed, handle_command,
  reset_session,
}

pub data Screen : Type 0 where
  blank : Screen
  fallback_asset : String → Screen
  manifest_item : String → Item → Screen

pub record Renderer : Type 0 where
  pub plays : Item → Bool
  pub shows : String → Bool

-- ICD-9, what `PlayerEventPublisher` is told.
pub data PlayerEvent : Type 0 where
  manifest_deactivated : String → PlayerEvent
  manifest_activated : String → Option String → PlayerEvent
  safe_mode_entered fallback_entered now_frozen : PlayerEvent

pub record Player : Type 0 where
  pub handler : CommandHandler
  pub bundle : FallbackBundle
  pub screen : Screen
  pub prev_manifest_id : Option String
  pub events : List PlayerEvent

pub show_asset : Renderer → Option String → Outcome Screen
show_asset r none = raised value_error
show_asset r (some path) = if r.shows path then ok (fallback_asset path) else raised renderer_error

play_first : Renderer → Option String → String → List Item → Outcome Screen
unfolding show_asset
play_first r path id [] = show_asset r path
play_first r path id (item ∷ rest) =
    if r.plays item then ok (manifest_item id item) else show_asset r path

play_known : Renderer → Option String → String → Option Manifest → Outcome Screen
unfolding play_first
play_known r path id none = show_asset r path
play_known r path id (some m) = play_first r path id m.items

play : Renderer → Option String → Manifests.Store → Option String → Outcome Screen
unfolding play_known
play r path store none = show_asset r path
play r path store (some id) = play_known r path id (Manifests.get id store)

pub execute_action :
    Action → Renderer → Option String → Manifests.Store → TransitionResult → Screen → Outcome Screen
unfolding play show_asset
execute_action show_fallback r path store res s = show_asset r path
execute_action play_manifest r path store res s = play r path store res.manifest_id
execute_action hold r path store res s = ok s

unfoldable pub execute_transition :
    Renderer → FallbackBundle → Manifests.Store → TransitionResult → Screen → Outcome Screen
unfolding execute_action
execute_transition r b store res s = execute_action res.action r b.asset_path store res s

-- A manifest that was shown before is reported as left, unless it is the same.
deactivated : Option String → String → List PlayerEvent
deactivated none id = []
deactivated (some prev) id = if not (str_eq prev id) then manifest_deactivated prev ∷ [] else []

report_play : Player → TransitionResult → Option String → Player
unfolding deactivated
report_play p res none = p
report_play p res (some id) =
    if truthy (some id)
    then record p {
      events =
          p.events
          ++ (deactivated p.prev_manifest_id id ++ (manifest_activated id res.reason ∷ []));
      prev_manifest_id = some id;
    }
    else p

report_fallback : Player → PlayerState → Option String → Player
report_fallback p s none = p
report_fallback p s (some prev) = record p {
  events =
      p.events ++ ((if is_state s safe_mode then safe_mode_entered else fallback_entered) ∷ []);
  prev_manifest_id = none;
}

report : Action → Player → TransitionResult → Player
unfolding report_play report_fallback
report play_manifest p res = report_play p res res.manifest_id
report show_fallback p res = report_fallback p res.new_state p.prev_manifest_id
report hold p res =
    if is_state res.new_state frozen then record p { events = p.events ++ (now_frozen ∷ []) } else p

shown : Player → TransitionResult → Outcome Screen → Player × Bool
unfolding report
shown p res (raised e) = (p, true)
shown p res (ok s) = (report res.action (record p { screen = s }) res, false)

unfoldable pub on_transition : Renderer → Player → TransitionResult → Player × Bool
unfolding shown
on_transition r p res = shown p res (execute_transition r p.bundle p.handler.store res p.screen)

-- The new state of the machine is there before the transition is carried out.
with_handler : Player → CommandHandler → Player
with_handler p h = record p { handler = h }

after_command : Renderer → Player → Handled → Player × Bool
after_command r p dropped = (p, false)
after_command r p (transition res) = on_transition r p res
after_command r p failed = (p, true)

unfoldable pub receive_command : Renderer → Surroundings → Player → Command → Player × Bool
unfolding after_command with_handler
receive_command r env p c =
    let (h, handled) = handle_command env p.handler c in after_command r (with_handler p h) handled

after_machine : Renderer → Player → StateMachine × TransitionResult → Player × Bool
after_machine r p (sm, res) =
    on_transition r (record p { handler = record p.handler { sm = sm } }) res

unfoldable pub connection_lost : Renderer → Player → (now : ℕ) → Player × Bool
unfolding after_machine
connection_lost r p now = after_machine r p (on_connection_lost p.handler.sm now)

-- POST /control/safe-mode: a reason that is not one of three gives way to the first.
unfoldable pub safe_mode_reason : Option String → String
safe_mode_reason none = "operator_manual"
safe_mode_reason (some why) =
    if str_eq why "operator_manual"
      || (str_eq why "supervisor_escalation" || str_eq why "boot_loop_protection")
    then why
    else "operator_manual"

unfoldable pub safe_mode_engage : Renderer → Player → Option String → (now : ℕ) → Player × Bool
unfolding after_machine
safe_mode_engage r p why now =
    after_machine r p (on_safe_mode p.handler.sm (some (safe_mode_reason why)) now)

-- DELETE /control/safe-mode
unfoldable pub safe_mode_clear : Renderer → Player → Player × Bool
unfolding after_machine
safe_mode_clear r p = after_machine r p (on_clear_safe_mode p.handler.sm)

unfoldable pub connected : Player → Player
connected p = record p { handler = reset_session p.handler }

-- `PlayerState.value`
unfoldable pub value : PlayerState → String
value fallback = "fallback"
value active = "active"
value frozen = "frozen"
value safe_mode = "safe_mode"

refreshed : Bool → Renderer → Player → Player × Bool
refreshed false r p = (p, false)
refreshed true r p = elim (show_asset r p.bundle.asset_path) [
  | ok s ↦ (record p { screen = s }, false)
  | raised e ↦ (p, true)
]

-- One round of `_fallback_refresh_loop`.
unfoldable pub fallback_refresh : Renderer → Settings → Player → Player × Bool
unfolding refreshed value show_asset
fallback_refresh r s p =
    let (b, changed) = refresh s p.bundle in
    let state = value p.handler.sm.state in
    refreshed (changed && (str_eq state "FALLBACK" || str_eq state "SAFE_MODE")) r
      (record p { bundle = b })

-- One round of `_manifest_reload_loop`.
unfoldable pub manifest_reload : (Manifest → List String) → Option (List File) → Player → Player
manifest_reload iter_errors disk p = record p {
  handler = record p.handler { store = (reload iter_errors disk p.handler.store).0 };
}

-- What `run` does before its loops: it validates the bundle, shows the fallback and loads the
-- manifests. `none` is an aborted start.
shown_first : FallbackBundle → Manifests.Store → Outcome Screen → Option Player
shown_first b store (raised e) = none
shown_first b store (ok s) = some (record {
  handler = record {
    sm = new;
    store = store;
    publisher = some [];
    last_sequence = none;
    seen_command_ids = [];
  };
  bundle = b;
  screen = s;
  prev_manifest_id = none;
  events = [];
})

start_validated :
    Renderer → (Manifest → List String) → Option (List File) → Option FallbackBundle → Option Player
unfolding shown_first show_asset
start_validated r iter_errors disk none = none
start_validated r iter_errors disk (some b) =
    shown_first b (load_from_disk iter_errors disk []).0 (show_asset r b.asset_path)

unfoldable pub start :
    Renderer → (Manifest → List String) → Option (List File) → Settings → Option Player
unfolding start_validated
start r iter_errors disk s = start_validated r iter_errors disk (validate s)
