-- ===== src/Decision/Loop/Freeze.antt =====
-- What a tick does while there is a reason to freeze the players.
use adaptive_advertisement.Common.{
  ℕ, ◌+◌, String, ◌≡◌, inl, inr, true, Bool-cases, Option, some, List, [], arith, All,
  if◌then◌else◌,
}
use adaptive_advertisement.Decision.Signal.{Signal}
use adaptive_advertisement.Decision.Gateway.{Delivery}
use adaptive_advertisement.Decision.Gateway.Sends.{
  IsFreeze, send_freeze-All, IsFreezeOf, send_freeze-IsFreezeOf,
}
use adaptive_advertisement.Decision.Loop.{DecisionLoop, Moment, tick_frozen, tick_on, tick_with}
use adaptive_advertisement.Decision.Loop.Runs.{Reading, reason_of, after, sent_by}

-- A tick with a reason to freeze: the players are frozen, the decision stays, nothing but a freeze
-- is sent, and nothing at all to players that are frozen already.
pub record IsHeld (l l' : DecisionLoop) (sent : List Delivery) : Type 0 where
  pub frozen : l'.player_frozen ≡ true
  pub manifest : l'.current_manifest_id ≡ l.current_manifest_id
  pub freezes : l'.freeze_count ≡ l.freeze_count + (if l.player_frozen then 0 else 1)
  pub only_freezes : All IsFreeze sent
  pub silent : l.player_frozen ≡ true → sent ≡ []

tick_frozen-IsHeld :
    (t : Moment) (l : DecisionLoop) (reason : String)
    → IsHeld l (tick_frozen t l reason).0 (tick_frozen t l reason).2
unfolding tick_frozen
tick_frozen-IsHeld t l reason = elim (Bool-cases l.player_frozen) [
  | inl frozen ↦ ground arith
  | inr thawed ↦ ground (arith, send_freeze-All t.network l.gateway (some reason))
]

-- The count of ticks is no part of it.
tick_count-IsHeld :
    (l l' : DecisionLoop) (n : ℕ) (sent : List Delivery)
    → IsHeld (record l { tick_count = n }) l' sent
    → IsHeld l l' sent
tick_count-IsHeld l l' n sent h = record {
  frozen = h.frozen;
  manifest = h.manifest;
  freezes = h.freezes;
  only_freezes = h.only_freezes;
  silent = h.silent;
}

tick_on-IsHeld :
    (t : Moment) (l : DecisionLoop) (s : Option Signal) (o : Option String) (reason : String)
    → o ≡ some reason
    → IsHeld l (tick_on t l s o).0 (tick_on t l s o).2
unfolding tick_on
tick_on-IsHeld t l s o reason e = rw e (tick_frozen-IsHeld t l reason)

-- One tick with a reason to freeze.
pub tick-IsHeld :
    (l : DecisionLoop) (r : Reading) (reason : String)
    → reason_of r ≡ some reason
    → IsHeld l (after l r) (sent_by l r)
unfolding reason_of after sent_by tick_with
tick-IsHeld l r reason e = tick_count-IsHeld l _ _ _ (
    tick_on-IsHeld r.moment (record l { tick_count = l.tick_count + 1 }) r.signal (reason_of r)
      reason e)

-- Some reason holds at every reading.
abbrev pub IsDegraded : List Reading → Type 0
IsDegraded rs = All (λ (r : Reading). (reason : String) × (reason_of r ≡ some reason)) rs

tick_frozen-IsFreezeOf :
    (t : Moment) (l : DecisionLoop) (reason : String)
    → All (IsFreezeOf t.network l.gateway) (tick_frozen t l reason).2
unfolding tick_frozen
tick_frozen-IsFreezeOf t l reason = elim (Bool-cases l.player_frozen) [
  | inl frozen ↦ rw frozen tt
  | inr thawed ↦ rw thawed (send_freeze-IsFreezeOf t.network l.gateway (some reason))
]

tick_on-IsFreezeOf :
    (t : Moment) (l : DecisionLoop) (s : Option Signal) (o : Option String) (reason : String)
    → o ≡ some reason
    → All (IsFreezeOf t.network l.gateway) (tick_on t l s o).2
unfolding tick_on
tick_on-IsFreezeOf t l s o reason e = rw e (tick_frozen-IsFreezeOf t l reason)

-- All that a tick with a reason to freeze sends are freezes with the gateway's next number.
pub sent_by-IsFreezeOf :
    (l : DecisionLoop) (r : Reading) (reason : String)
    → reason_of r ≡ some reason
    → All (IsFreezeOf r.moment.network l.gateway) (sent_by l r)
unfolding reason_of sent_by tick_with
sent_by-IsFreezeOf l r reason e =
    tick_on-IsFreezeOf r.moment (record l { tick_count = l.tick_count + 1 }) r.signal (reason_of r)
      reason e
