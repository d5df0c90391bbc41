-- ===== src/System/Freezes.antt =====
-- From a reason to freeze, read by the decision loop, to a frozen player.
use adaptive_advertisement.Common.{ℕ, ◌+◌, String, ◌≡◌, refl, false, Option, some, IsIn, All-IsIn}
use adaptive_advertisement.Seen.{is_seen}
use adaptive_advertisement.Player.State.{active, frozen, on_freeze}
use adaptive_advertisement.Player.Command.{
  CommandHandler, Surroundings, out_of_order, record_command, dispatch, handle_command,
}
use adaptive_advertisement.Decision.Gateway.{Network, freezing, Delivery, build}
use adaptive_advertisement.Decision.Gateway.Sequence.{IsInSync, in_order_of_sync}
use adaptive_advertisement.Decision.Gateway.Sends.{IsFreezeOf}
use adaptive_advertisement.Decision.Loop.Freeze.{sent_by-IsFreezeOf}
use adaptive_advertisement.Decision.Loop.{DecisionLoop}
use adaptive_advertisement.Decision.Loop.Runs.{Reading, reason_of, sent_by}

-- The player holds what it shows.
pub record IsFrozen (h h' : CommandHandler) : Type 0 where
  pub state : h'.sm.state ≡ frozen
  pub manifest : h'.sm.active_manifest_id ≡ h.sm.active_manifest_id

freezing-IsFrozen :
    (env : Surroundings) (h : CommandHandler) (net : Network) (n : ℕ) (reason : Option String)
    → is_seen (net.uuid n) h.seen_command_ids ≡ false
    → out_of_order h.last_sequence n ≡ false
    → h.sm.state ≡ active
    → IsFrozen h (handle_command env h (build net n (freezing reason))).0
unfolding handle_command record_command dispatch build on_freeze
freezing-IsFrozen env h net n reason new order on = record {
  state = rw (new, order, on) refl;
  manifest = rw (new, order, on) refl;
}

-- If the decision loop reads a reason to freeze, a player that gets what the tick sends, has applied
-- nothing beyond the gateway's number, does not know the command's identifier and is active, is
-- frozen afterwards with the manifest that it was showing.
pub degraded_freezes_player :
    (l : DecisionLoop) (r : Reading) (reason : String) (d : Delivery) (env : Surroundings)
    (h : CommandHandler)
    → reason_of r ≡ some reason
    → IsIn d (sent_by l r)
    → IsInSync l.gateway h
    → is_seen (r.moment.network.uuid (l.gateway.sequence + 1)) h.seen_command_ids ≡ false
    → h.sm.state ≡ active
    → IsFrozen h (handle_command env h d.command).0
degraded_freezes_player l r reason d env h e got sync new on =
    let f =
      All-IsIn (IsFreezeOf r.moment.network l.gateway) d (sent_by l r)
        (sent_by-IsFreezeOf l r reason e) got in
    rw f.command_is (
      freezing-IsFrozen env h r.moment.network (l.gateway.sequence + 1) f.reason new
        (in_order_of_sync h.last_sequence l.gateway.sequence sync) on)
