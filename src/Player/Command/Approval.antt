-- ===== src/Player/Command/Approval.antt =====
-- What an activation must pass before it reaches the screen, and when a command raises.
use adaptive_advertisement.Common.{String, ◌≡◌, refl, sym, ◌≢◌, false, Option, none, some, arith}
use adaptive_advertisement.Common.Outcome.{Outcome, ok, raised, key_error, ◌>>=◌}
use adaptive_advertisement.Seen.{is_seen}
use adaptive_advertisement.Manifest.{Manifest}
use adaptive_advertisement.Player.Manifests
use adaptive_advertisement.Player.Manifests.{check_manifest}
use adaptive_advertisement.Player.Manifests.Laws.{MayRender, check_manifest_iff}
use adaptive_advertisement.Player.State.{TransitionResult, play_manifest, StateMachine}
use adaptive_advertisement.Player.State.Invariant.{
  activation-play, freeze-ne-play, safe_mode-ne-play, clear-ne-play,
}
use adaptive_advertisement.Player.Command.{
  Activation, Command, CommandHandler, Surroundings, transition, failed, activate_creative, settle,
  dispatch, handle_activate_creative, rejected, out_of_order, record_command, handle_command,
  activate_known, activate_checked, cooldown_of, dispatch_type, CommandType, freeze, safe_mode,
  clear_safe_mode,
}

-- The manifest `m` is in the store under `id` and may be rendered now.
pub record IsApproved (env : Surroundings) (h : CommandHandler) (id : String) : Type 0 where
  pub manifest : Manifest
  pub stored : Manifests.get id h.store ≡ some manifest
  pub renderable : MayRender env.expiry_of env.wall_clock manifest

-- A rejection never plays.
rejected-ne-play : (sm : StateMachine) (why : String) → (rejected sm why).action ≢ play_manifest
unfolding rejected
rejected-ne-play sm why h = ground arith

module _ (env : Surroundings) (h : CommandHandler) (p : Activation) where
  result-play :
      (r : Outcome (Option String)) (h' : CommandHandler) (res : TransitionResult)
      → (r >>= λ why. ok (activate_checked env h p why)) ≡ ok (h', res)
      → res.action ≡ play_manifest
      → (r ≡ ok none)
        × (res.manifest_id ≡ some p.manifest_id)
        × (h'.sm.active_manifest_id ≡ some p.manifest_id)
  unfolding activate_checked
  result-play (raised e) h' res eq a = cc
  result-play (ok (some why)) h' res eq a = ground (arith, rejected-ne-play h.sm why)
  result-play (ok none) h' res eq a = ground (
    arith,
    activation-play h.sm p.manifest_id p.min_dwell_ms (cooldown_of p.cooldown_ms) env.readings,
  )

  known-play :
      (o : Option Manifest) (h' : CommandHandler) (res : TransitionResult)
      → o ≡ Manifests.get p.manifest_id h.store
      → activate_known env h p o ≡ ok (h', res)
      → res.action ≡ play_manifest
      → IsApproved env h p.manifest_id
        × (res.manifest_id ≡ some p.manifest_id)
        × (h'.sm.active_manifest_id ≡ some p.manifest_id)
  unfolding activate_known
  known-play none h' res g eq a = ground (arith, rejected-ne-play h.sm "unknown_manifest")
  known-play (some m) h' res g eq a =
      let (c, id, act) = result-play (check_manifest env.expiry_of env.wall_clock m) h' res eq a in
      (
        record {
          manifest = m;
          stored = sym g;
          renderable = (check_manifest_iff env.expiry_of env.wall_clock m).0 c;
        },
        id,
        act,
      )

activation_dispatch-play :
    (env : Surroundings) (h : CommandHandler) (o : Option Activation) (h' : CommandHandler)
    (res : TransitionResult)
    → handle_activate_creative env h o ≡ ok (h', res)
    → res.action ≡ play_manifest
    → (id : String) × IsApproved env h id
      × (res.manifest_id ≡ some id)
      × (h'.sm.active_manifest_id ≡ some id)
unfolding handle_activate_creative
activation_dispatch-play env h none h' res eq a = cc
activation_dispatch-play env h (some p) h' res eq a =
    let (ap, id, act) = known-play env h p (Manifests.get p.manifest_id h.store) h' res refl eq a in
    (p.manifest_id, ap, id, act)

-- What a dispatched command that plays shows.
dispatch-play :
    (t : CommandType) (env : Surroundings) (h : CommandHandler) (c : Command) (h' : CommandHandler)
    (res : TransitionResult)
    → dispatch_type t env h c ≡ ok (h', res)
    → res.action ≡ play_manifest
    → (id : String) × IsApproved env h id
      × (res.manifest_id ≡ some id)
      × (h'.sm.active_manifest_id ≡ some id)
unfolding dispatch_type
dispatch-play activate_creative env h c h' res eq a =
    activation_dispatch-play env h c.activation h' res eq a
dispatch-play freeze env h c h' res eq a =
    absurd (ground (arith, freeze-ne-play h.sm c.freeze_reason))
dispatch-play safe_mode env h c h' res eq a =
    absurd (ground (arith, safe_mode-ne-play h.sm c.safe_mode_reason env.monotonic))
dispatch-play clear_safe_mode env h c h' res eq a = absurd (ground (arith, clear-ne-play h.sm))

settle_transition :
    (h : CommandHandler) (r : Outcome (CommandHandler × TransitionResult)) (h' : CommandHandler)
    (res : TransitionResult)
    → settle h r ≡ (h', transition res)
    → r ≡ ok (h', res)
unfolding settle
settle_transition h (ok (g, s)) h' res e = ground arith
settle_transition h (raised x) h' res e = ground arith

handle_transition :
    (env : Surroundings) (h : CommandHandler) (c : Command) (h' : CommandHandler)
    (res : TransitionResult)
    → handle_command env h c ≡ (h', transition res)
    → dispatch env (record_command h c) c ≡ ok (h', res)
unfolding handle_command
handle_transition env h c h' res e =
    settle_transition (record_command h c) (dispatch env (record_command h c) c) h' res
      (ground arith)

-- Whatever is played was approved: a command that ends in playing a manifest names one that is in
-- the player's store, with both approval fields and no expiry date that has passed, and it becomes
-- the active manifest.
pub played-IsApproved :
    (env : Surroundings) (h : CommandHandler) (c : Command) (h' : CommandHandler)
    (res : TransitionResult)
    → handle_command env h c ≡ (h', transition res)
    → res.action ≡ play_manifest
    → (id : String) × IsApproved env h id
      × (res.manifest_id ≡ some id)
      × (h'.sm.active_manifest_id ≡ some id)
unfolding dispatch record_command
played-IsApproved env h c h' res e a =
    let (id, ap, same, act) =
      dispatch-play c.command_type env (record_command h c) c h' res
        (handle_transition env h c h' res e) a in
    (
      id,
      record { manifest = ap.manifest; stored = ap.stored; renderable = ap.renderable },
      same,
      act,
    )

-- The schema lets an activation pass without its payload. If such a command is new and in order,
-- the handler raises a KeyError, and the command stays recorded as applied.
pub missing_payload_raises :
    (env : Surroundings) (h : CommandHandler) (c : Command)
    → c.command_type ≡ activate_creative
    → c.activation ≡ none
    → is_seen c.command_id h.seen_command_ids ≡ false
    → out_of_order h.last_sequence c.sequence_number ≡ false
    → (dispatch env (record_command h c) c ≡ raised key_error)
      × (handle_command env h c ≡ (record_command h c, failed))
unfolding handle_command dispatch dispatch_type handle_activate_creative
missing_payload_raises env h c t p new next = (ground arith, ground arith)
