-- ===== src/Supervisor/Relay/Convergence.antt =====
-- The relay against what the dashboard wants, over any number of polls.
use adaptive_advertisement.Common.{
  ◌≡◌, refl, sym, ◌∙◌, ◌⊎◌, inl, inr, Bool, false, Bool-cases, Option, none, some, List, [], ◌∷◌,
  ◌++◌, All,
}
use adaptive_advertisement.Supervisor.Relay.{
  SafeModeRelay, Intent, Answer, PlayerStatus, Request, poll_dashboard, succeeds, wants, follow,
  tick,
}

-- What one poll meets.
pub record Poll : Type 0 where
  pub dashboard : Answer
  pub player : PlayerStatus

unfoldable pub run : SafeModeRelay → List Poll → SafeModeRelay × List Request
unfolding tick
run r [] = (r, [])
run r (p ∷ ps) =
    let (r', out) = tick p.dashboard p.player r in let rest = run r' ps in (rest.0, out ++ rest.1)

-- The dashboard wants safe mode, or does not, or is not reached.
abbrev pub IsWanted : Bool → Poll → Type 0
IsWanted w p =
    (poll_dashboard p.dashboard ≡ none)
    ⊎ ((i : Intent) × ((poll_dashboard p.dashboard ≡ some i) × (wants i ≡ w)))

abbrev reaches : Option Intent → PlayerStatus → Bool
reaches none a = false
reaches (some i) a = succeeds a

-- A poll that reaches both ends.
abbrev pub is_reached : Poll → Bool
is_reached p = reaches (poll_dashboard p.dashboard) p.player

agreed_silent :
    (a : PlayerStatus) (r : SafeModeRelay) (i : Intent)
    → r.engaged_by_dashboard ≡ wants i
    → follow a r (some i) ≡ (r, [])
unfolding follow
agreed_silent a r i e = elim (Bool-cases (wants i)) [
  | inl on ↦ rw (on, e ∙ on) refl
  | inr off ↦ rw (off, e ∙ off) refl
]

tick_silent :
    (w : Bool) (r : SafeModeRelay) (p : Poll)
    → r.engaged_by_dashboard ≡ w
    → IsWanted w p
    → tick p.dashboard p.player r ≡ (r, [])
unfolding tick follow
tick_silent w r p e (inl gone) = rw gone refl
tick_silent w r p e (inr (i, (is, k))) = rw is (agreed_silent p.player r i (e ∙ sym k))

-- Once the relay has done what the dashboard wants, it asks nothing more of the player and keeps its
-- state for as long as the dashboard wants the same or is not reached: a player that starts anew
-- meanwhile, without safe mode, is not told again.
pub settled_silent :
    (w : Bool) (r : SafeModeRelay) (ps : List Poll)
    → r.engaged_by_dashboard ≡ w
    → All (IsWanted w) ps
    → run r ps ≡ (r, [])
unfolding run
settled_silent w r [] e h = refl
settled_silent w r (p ∷ ps) e (h, hs) = rw (tick_silent w r p e h, settled_silent w r ps e hs) refl
