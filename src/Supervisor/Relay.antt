-- ===== src/Supervisor/Relay.antt =====
-- services/supervisor/supervisor/safe_mode_relay.py. What the two HTTP ends answer is a parameter:
-- an exception of a request is `unreachable`.
pub mod Convergence
use adaptive_advertisement.Common.{
  ℕ, String, Bool, true, false, not, ◌&&◌, ◌||◌, Option, none, some, List, [], ◌∷◌, ◌==◌,
  if◌then◌else◌,
}
use adaptive_advertisement.Common.Codec.{truthy}

pub record SafeModeRelay : Type 0 where
  pub engaged_by_dashboard : Bool
  pub engaged_by_supervisor : Bool

abbrev pub new : SafeModeRelay
new = record { engaged_by_dashboard = false; engaged_by_supervisor = false }

abbrev pub is_safe_mode_active : SafeModeRelay → Bool
is_safe_mode_active r = r.engaged_by_dashboard || r.engaged_by_supervisor

-- The body that the dashboard answers with.
pub record Intent : Type 0 where
  pub is_active : Option Bool
  pub reason : Option String

pub data Answer : Type 0 where
  answered : (status : ℕ) (body : Intent) → Answer
  unreachable : Answer

-- The status that the player answers with; none is an exception of the request.
abbrev pub PlayerStatus : Type 0
PlayerStatus = Option ℕ

-- The requests that the player gets.
pub data Request : Type 0 where
  post_engage : (reason : String) → Request
  delete_clear : Request

unfoldable pub poll_dashboard : Answer → Option Intent
poll_dashboard (answered s i) = if s == 200 then some i else none
poll_dashboard unreachable = none

-- `_post_engage` and `_delete_clear`, by the player's answer
unfoldable pub succeeds : PlayerStatus → Bool
succeeds (some status) = status == 200
succeeds none = false

unfoldable pub engage_safe_mode_supervisor :
    (reason : String) → PlayerStatus → SafeModeRelay → SafeModeRelay × List Request
unfolding succeeds
engage_safe_mode_supervisor reason a r =
    (if succeeds a then record r { engaged_by_supervisor = true } else r, post_engage reason ∷ [])

-- `intent.get("is_active", False)`
abbrev pub wants : Intent → Bool
wants i = elim i.is_active [ none ↦ false | some b ↦ b ]

-- `intent.get("reason") or "operator_manual"`
reason_of : Option String → String
reason_of none = "operator_manual"
reason_of (some r) = if truthy (some r) then r else "operator_manual"

follow : PlayerStatus → SafeModeRelay → Option Intent → SafeModeRelay × List Request
unfolding succeeds reason_of
follow a r none = (r, [])
follow a r (some i) =
    if wants i && not r.engaged_by_dashboard
    then (
      if succeeds a then record r { engaged_by_dashboard = true } else r,
      post_engage (reason_of i.reason) ∷ [],
    )
    else if not (wants i) && r.engaged_by_dashboard
    then (if succeeds a then record r { engaged_by_dashboard = false } else r, delete_clear ∷ [])
    else (r, [])

-- `_tick`: what the dashboard answers, what the player would answer, and the requests it gets.
unfoldable pub tick : Answer → PlayerStatus → SafeModeRelay → SafeModeRelay × List Request
unfolding poll_dashboard follow
tick dashboard player r = follow player r (poll_dashboard dashboard)
