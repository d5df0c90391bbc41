-- ===== src/Player/Node/Shows.antt =====
-- What one transition puts on the screen, and that it fits the state that the machine is in after it.
use adaptive_advertisement.Common.{
  String, ◌≡◌, refl, ◌∙◌, subst, inl, inr, true, Option, none, some, List, [], ◌∷◌, arith,
  Bool-cases,
}
use adaptive_advertisement.Common.Outcome.{ok}
use adaptive_advertisement.Manifest.{Item, Manifest}
use adaptive_advertisement.Player.Manifests
use adaptive_advertisement.Player.Manifests.{File}
use adaptive_advertisement.Player.State.{
  PlayerState, Action, play_manifest, show_fallback, hold, TransitionResult, StateMachine,
}
use adaptive_advertisement.Player.State.Invariant.{has_creative}
use adaptive_advertisement.Player.State.Fits.{Fits}
use adaptive_advertisement.Player.Node.{
  Screen, blank, fallback_asset, manifest_item, Renderer, show_asset, play, play_known, play_first,
  execute_action,
}

-- What may be on the screen in a state with an active manifest.
abbrev pub ShowsState : PlayerState → Option String → Screen → Type 0
ShowsState s a blank = ⊥
ShowsState s a (fallback_asset path) = Unit
ShowsState s a (manifest_item id item) = (has_creative s ≡ true) × (a ≡ some id)

pub show_asset-Shows :
    (r : Renderer) (path : Option String) (s : PlayerState) (a : Option String) (screen : Screen)
    → show_asset r path ≡ ok screen
    → ShowsState s a screen
unfolding show_asset
show_asset-Shows r path s a blank e = ground arith
show_asset-Shows r path s a (fallback_asset p) e = tt
show_asset-Shows r path s a (manifest_item id item) e = ground arith

pub ok-injective {ℓ} : {A : Type ℓ} (a b : A) → ok a ≡ ok b → a ≡ b
ok-injective a b h = cc

play_first-Shows :
    (r : Renderer) (path : Option String) (id : String) (items : List Item) (s : PlayerState)
    (screen : Screen)
    → has_creative s ≡ true
    → play_first r path id items ≡ ok screen
    → ShowsState s (some id) screen
unfolding play_first
play_first-Shows r path id [] s screen h e = show_asset-Shows r path s (some id) screen e
play_first-Shows r path id (item ∷ rest) s screen h e = elim (Bool-cases (r.plays item)) [
  | inl works ↦
      subst (ShowsState s (some id)) (ok-injective (manifest_item id item) screen (rw works at e))
        (h, refl)
  | inr fails ↦ show_asset-Shows r path s (some id) screen (rw fails at e)
]

play-Shows :
    (r : Renderer) (path : Option String) (store : Manifests.Store) (o : Option String)
    (s : PlayerState) (screen : Screen)
    → has_creative s ≡ true
    → play r path store o ≡ ok screen
    → ShowsState s o screen
unfolding play
play-Shows r path store none s screen h e = show_asset-Shows r path s none screen e
play-Shows r path store (some id) s screen h e = known (Manifests.get id store) e
  where
    known :
        (m : Option Manifest) → play_known r path id m ≡ ok screen → ShowsState s (some id) screen
    known none e = show_asset-Shows r path s (some id) screen (unfold play_known in e)
    known (some m) e = play_first-Shows r path id m.items s screen h (unfold play_known in e)

pub keeps-Shows :
    (old new : StateMachine) (screen : Screen)
    → has_creative new.state ≡ has_creative old.state
    → new.active_manifest_id ≡ old.active_manifest_id
    → ShowsState old.state old.active_manifest_id screen
    → ShowsState new.state new.active_manifest_id screen
keeps-Shows old new blank c a h = h
keeps-Shows old new (fallback_asset p) c a h = tt
keeps-Shows old new (manifest_item id item) c a h = (c ∙ h.0, a ∙ h.1)

pub execute-Shows :
    (t : Action) (r : Renderer) (path : Option String) (store : Manifests.Store)
    (res : TransitionResult) (old new : StateMachine) (before after : Screen)
    → res.action ≡ t
    → Fits old new res
    → ShowsState old.state old.active_manifest_id before
    → execute_action t r path store res before ≡ ok after
    → ShowsState new.state new.active_manifest_id after
unfolding execute_action
execute-Shows show_fallback r path store res old new before after t f h e =
    show_asset-Shows r path new.state new.active_manifest_id after e
execute-Shows play_manifest r path store res old new before after t f h e =
    let (c, same) = f.plays_active t in
    subst (λ (o : Option String). ShowsState new.state o after) same
      (play-Shows r path store res.manifest_id new.state after c e)
execute-Shows hold r path store res old new before after t f h e =
    let (c, same) = f.holds_same t in
    subst (ShowsState new.state new.active_manifest_id) (ok-injective before after e)
      (keeps-Shows old new before c same h)
