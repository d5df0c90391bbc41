-- ===== src/Player/Node/NeverBlank.antt =====
-- Every input keeps the screen in step with the machine, and the screen is never blank.
use adaptive_advertisement.Common.{
  ℕ, String, ◌≡◌, refl, ap, subst, Bool, true, false, ◌&&◌, ◌||◌, Option, some, List, arith, str_eq,
}
use adaptive_advertisement.Common.Outcome.{Outcome, ok, raised}
use adaptive_advertisement.Manifest.{Manifest}
use adaptive_advertisement.Player.Manifests.{File}
use adaptive_advertisement.Player.Fallback.{Settings, refresh}
use adaptive_advertisement.Player.State.{
  PlayerState, fallback, Action, TransitionResult, StateMachine,
}
use adaptive_advertisement.Player.State.Invariant
use adaptive_advertisement.Player.State.Invariant.{Inv, step-Inv, new-Inv}
use adaptive_advertisement.Player.Command.{
  Command, CommandHandler, Surroundings, Handled, dropped, transition, failed, handle_command,
  reset_session,
}
use adaptive_advertisement.Player.State.Fits.{Follows, safe_mode-Fits, clear-Fits, lost-Fits}
use adaptive_advertisement.Player.Command.Machine.{HandledWell, handle_command-HandledWell}
use adaptive_advertisement.Player.Node.{
  Screen, Renderer, Player, execute_transition, on_transition, receive_command, connection_lost,
  safe_mode_engage, safe_mode_clear, connected, fallback_refresh, manifest_reload, safe_mode_reason,
  execute_action, shown, report, after_command, after_machine, with_handler, value, refreshed,
}
use adaptive_advertisement.Player.Node.Shows.{ShowsState, execute-Shows}

-- The machine is well formed and the screen fits it.
pub record IsGood (p : Player) : Type 0 where
  pub machine : Inv p.handler.sm
  pub screen : ShowsState p.handler.sm.state p.handler.sm.active_manifest_id p.screen

-- Reporting an event changes neither the machine nor the screen.
report_keeps :
    (t : Action) (p : Player) (res : TransitionResult)
    → ((report t p res).handler ≡ p.handler) × ((report t p res).screen ≡ p.screen)
unfolding report
report_keeps t p res = ground arith

shown-IsGood :
    (p : Player) (res : TransitionResult) (o : Outcome Screen)
    → Inv p.handler.sm
    → ((s : Screen) → o ≡ ok s → ShowsState p.handler.sm.state p.handler.sm.active_manifest_id s)
    → (shown p res o).1 ≡ false
    → IsGood (shown p res o).0
unfolding shown
shown-IsGood p res (raised e) inv h f = cc
shown-IsGood p res (ok s) inv h f =
    let (eh, es) = report_keeps res.action (record p { screen = s }) res in
    record { machine = rw eh inv; screen = rw (eh, es) (h s refl) }

-- A transition that the screen can follow, carried out with no exception.
on_transition-IsGood :
    (r : Renderer) (p : Player) (old : StateMachine) (res : TransitionResult)
    → Follows old p.handler.sm res
    → ShowsState old.state old.active_manifest_id p.screen
    → (on_transition r p res).1 ≡ false
    → IsGood (on_transition r p res).0
unfolding on_transition execute_transition
on_transition-IsGood r p old res fol h f =
    shown-IsGood p res
      (execute_action res.action r p.bundle.asset_path p.handler.store res p.screen) fol.machine
      (λ s e.
        execute-Shows res.action r p.bundle.asset_path p.handler.store res old p.handler.sm p.screen
          s refl fol.fits h e)
      f

-- What reaches the player, from the optimizer, the network, the supervisor and its own timers.
pub data Input : Type 0 where
  command : Surroundings → Command → Input
  connect : Input
  lose : ℕ → Input
  post_safe_mode : Option String → ℕ → Input
  delete_safe_mode : Input
  refresh_assets : Settings → Input
  reload_manifests : (Manifest → List String) → Option (List File) → Input

unfoldable pub step : Renderer → Input → Player → Player × Bool
step r (command env c) p = receive_command r env p c
step r connect p = (connected p, false)
step r (lose now) p = connection_lost r p now
step r (post_safe_mode why now) p = safe_mode_engage r p why now
step r delete_safe_mode p = safe_mode_clear r p
step r (refresh_assets s) p = fallback_refresh r s p
step r (reload_manifests iter_errors disk) p = (manifest_reload iter_errors disk p, false)

after_command-IsGood :
    (r : Renderer) (p : Player) (x : CommandHandler × Handled)
    → IsGood p
    → HandledWell p.handler.sm x
    → (after_command r (with_handler p x.0) x.1).1 ≡ false
    → IsGood (after_command r (with_handler p x.0) x.1).0
unfolding after_command with_handler
after_command-IsGood r p (h, dropped) g w f = record {
  machine = rw w g.machine;
  screen = rw w g.screen;
}
after_command-IsGood r p (h, transition res) g w f =
    on_transition-IsGood r (record p { handler = h }) p.handler.sm res w g.screen f
after_command-IsGood r p (h, failed) g w f = cc

refreshed-value :
    (s : PlayerState) → (str_eq (value s) "FALLBACK" || str_eq (value s) "SAFE_MODE") ≡ false
unfolding value
refreshed-value fallback = refl
refreshed-value _ = refl

and-false : (b : Bool) → (b && false) ≡ false
and-false true = refl
and-false false = refl

-- A refresh of the fallback assets never changes what is on the screen: the states' values are in
-- lower case, and the loop compares them with upper-case names.
pub refresh_never_shown :
    (r : Renderer) (s : Settings) (p : Player)
    → fallback_refresh r s p ≡ (record p { bundle = (refresh s p.bundle).0 }, false)
unfolding fallback_refresh refreshed
refresh_never_shown r s p =
    rw (refreshed-value p.handler.sm.state) (rw (and-false (refresh s p.bundle).1))

-- Every input that no exception ends keeps the player good.
pub step-IsGood :
    (r : Renderer) (i : Input) (p : Player)
    → IsGood p
    → (step r i p).1 ≡ false
    → IsGood (step r i p).0
unfolding step receive_command connection_lost safe_mode_engage safe_mode_clear connected
    manifest_reload after_machine reset_session Invariant.step
step-IsGood r (command env c) p g f =
    after_command-IsGood r p (handle_command env p.handler c) g
      (handle_command-HandledWell env p.handler c g.machine) f
step-IsGood r connect p g f = record { machine = g.machine; screen = g.screen }
step-IsGood r (lose now) p g f =
    on_transition-IsGood r _ p.handler.sm _
      (record {
        machine = step-Inv p.handler.sm (Invariant.connection_lost now) g.machine;
        fits = lost-Fits p.handler.sm now;
      })
      g.screen f
step-IsGood r (post_safe_mode why now) p g f =
    on_transition-IsGood r _ p.handler.sm _
      (record {
        machine =
            step-Inv p.handler.sm (Invariant.engage_safe_mode (some (safe_mode_reason why)) now)
              g.machine;
        fits = safe_mode-Fits p.handler.sm (some (safe_mode_reason why)) now;
      })
      g.screen f
step-IsGood r delete_safe_mode p g f =
    on_transition-IsGood r _ p.handler.sm _
      (record {
        machine = step-Inv p.handler.sm Invariant.clear_safe_mode g.machine;
        fits = clear-Fits p.handler.sm;
      })
      g.screen f
step-IsGood r (refresh_assets s) p g f =
    rw (refresh_never_shown r s p) (record { machine = g.machine; screen = g.screen })
step-IsGood r (reload_manifests iter_errors disk) p g f = record {
  machine = g.machine;
  screen = g.screen;
}

-- What any inputs lead to, each with its own renderer, if no exception ends the service.
pub data Reach (p : Player) : Player → Type 0 where
  here : Reach p p
  next :
      {q s : Player} → Reach p q → (r : Renderer) (i : Input) → step r i q ≡ (s, false) → Reach p s

pub Reach-IsGood : {p q : Player} → IsGood p → Reach p q → IsGood q
Reach-IsGood g here = g
Reach-IsGood g (next {q} {s} way r i e) =
    subst (λ (x : Player × Bool). IsGood x.0) e
      (step-IsGood r i q (Reach-IsGood g way) (ap (λ (x : Player × Bool). x.1) e))
