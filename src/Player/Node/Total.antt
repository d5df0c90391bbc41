-- ===== src/Player/Node/Total.antt =====
-- A player with a fallback asset that its renderer can show starts, and carries out every transition.
use adaptive_advertisement.Common.{
  String, ◌≡◌, refl, true, false, Bool-cases, Option, none, some, List, [], ◌∷◌, arith, inl, inr,
  is_some,
}
use adaptive_advertisement.Common.Outcome.{Outcome, ok, raised}
use adaptive_advertisement.Manifest.{Item, Manifest}
use adaptive_advertisement.Player.Manifests
use adaptive_advertisement.Player.Manifests.{File}
use adaptive_advertisement.Player.Fallback
use adaptive_advertisement.Player.Fallback.{
  FallbackBundle, Settings, builtin_name, has_file, resolve, validate, refresh,
}
use adaptive_advertisement.Player.Fallback.Selection.{validate_succeeds}
use adaptive_advertisement.Player.State.{
  Action, play_manifest, show_fallback, hold, TransitionResult,
}
use adaptive_advertisement.Player.State.Invariant.{new-Inv}
use adaptive_advertisement.Player.Command.{
  Command, Surroundings, Handled, dropped, transition, failed, handle_command,
}
use adaptive_advertisement.Player.Node.{
  Screen, fallback_asset, Renderer, Player, show_asset, play_first, play_known, play,
  execute_action, execute_transition, shown, on_transition, after_command, with_handler,
  receive_command, start, start_validated, shown_first,
}
use adaptive_advertisement.Player.Node.NeverBlank.{IsGood}

-- The renderer shows the asset that is selected.
pub record CanShow (r : Renderer) (o : Option String) : Type 0 where
  pub path : String
  pub selected : o ≡ some path
  pub shows : r.shows path ≡ true

show_asset_ok :
    (r : Renderer) (o : Option String) (c : CanShow r o)
    → show_asset r o ≡ ok (fallback_asset c.path)
unfolding show_asset
show_asset_ok r none c = cc (c.selected)
show_asset_ok r (some p) c = ground arith

-- The outcome is no exception.
abbrev Fine {ℓ} : {A : Type ℓ} → Outcome A → Type 0
Fine (ok a) = Unit
Fine (raised e) = ⊥

module _ (r : Renderer) (o : Option String) (c : CanShow r o) where
  show_asset-Fine : Fine (show_asset r o)
  show_asset-Fine = rw (show_asset_ok r o c) tt

  play_first-Fine : (id : String) (items : List Item) → Fine (play_first r o id items)
  unfolding play_first
  play_first-Fine id [] = show_asset-Fine
  play_first-Fine id (item ∷ rest) = elim (Bool-cases (r.plays item)) [
    | inl works ↦ rw works tt
    | inr fails ↦ rw fails show_asset-Fine
  ]

  known-Fine : (id : String) (m : Option Manifest) → Fine (play_known r o id m)
  unfolding play_known
  known-Fine id none = show_asset-Fine
  known-Fine id (some m) = play_first-Fine id m.items

  play-Fine : (store : Manifests.Store) (id : Option String) → Fine (play r o store id)
  unfolding play
  play-Fine store none = show_asset-Fine
  play-Fine store (some id) = known-Fine id (Manifests.get id store)

  execute-Fine :
      (t : Action) (store : Manifests.Store) (res : TransitionResult) (s : Screen)
      → Fine (execute_action t r o store res s)
  unfolding execute_action
  execute-Fine show_fallback store res s = show_asset-Fine
  execute-Fine play_manifest store res s = play-Fine store res.manifest_id
  execute-Fine hold store res s = tt

shown-Fine :
    (p : Player) (res : TransitionResult) (o : Outcome Screen) → Fine o → (shown p res o).1 ≡ false
unfolding shown
shown-Fine p res (ok s) h = refl
shown-Fine p res (raised e) h = absurd h

-- Every transition is carried out with no exception, whether or not its manifest can be played.
pub on_transition_total :
    (r : Renderer) (p : Player) (res : TransitionResult)
    → CanShow r p.bundle.asset_path
    → (on_transition r p res).1 ≡ false
unfolding on_transition execute_transition
on_transition_total r p res c =
    shown-Fine p res _
      (execute-Fine r p.bundle.asset_path c res.action p.handler.store res p.screen)

after_command-raised :
    (r : Renderer) (p : Player) (x : Handled)
    → CanShow r p.bundle.asset_path
    → (after_command r p x).1 ≡ true
    → x ≡ failed
unfolding after_command
after_command-raised r p dropped c h = cc
after_command-raised r p (transition res) c h = cc (h, on_transition_total r p res c)
after_command-raised r p failed c h = refl

-- If the renderer shows the selected fallback asset, a command ends in an exception only where the
-- handler itself raised, and never in the renderer.
pub command_raises_in_handler :
    (r : Renderer) (env : Surroundings) (p : Player) (c : Command)
    → CanShow r p.bundle.asset_path
    → (receive_command r env p c).1 ≡ true
    → (handle_command env p.handler c).1 ≡ failed
unfolding receive_command with_handler
command_raises_in_handler r env p c can h =
    after_command-raised r _ (handle_command env p.handler c).1 can h

resolved-some :
    (s : Settings) → has_file s.bundle builtin_name ≡ true → is_some (resolve s).asset_path ≡ true
resolved-some s h = (unfold refresh in (validate_succeeds s h).1 Fallback.new)

start_validated-IsGood :
    (r : Renderer) (iter_errors : Manifest → List String) (disk : Option (List File))
    (b : FallbackBundle) (c : CanShow r b.asset_path)
    → (p : Player) × (start_validated r iter_errors disk (some b) ≡ some p) × IsGood p
unfolding start_validated
start_validated-IsGood r iter_errors disk b c =
    rw (show_asset_ok r b.asset_path c)
      (unfold shown_first in (_, refl, record { machine = new-Inv; screen = tt }))

some_path : (o : Option String) → is_some o ≡ true → (path : String) × (o ≡ some path)
some_path none h = cc
some_path (some path) h = (path, refl)

-- With the built-in slate in the bundle and a renderer that shows every asset, the player starts,
-- whatever the manifest directory holds, and it starts with a screen that fits its machine.
pub start-IsGood :
    (r : Renderer) (iter_errors : Manifest → List String) (disk : Option (List File)) (s : Settings)
    → has_file s.bundle builtin_name ≡ true
    → ((path : String) → r.shows path ≡ true)
    → (p : Player) × (start r iter_errors disk s ≡ some p) × IsGood p
unfolding start
start-IsGood r iter_errors disk s h shows =
    let (path, e) = some_path (resolve s).asset_path (resolved-some s h) in
    rw ((validate_succeeds s h).0) (
      start_validated-IsGood r iter_errors disk (resolve s)
        (record { path = path; selected = e; shows = shows path }))
