-- ===== src/Decision/Loop/Runs.antt =====
-- Ticks one after the other: the loop of `run`, with what each tick reads written out.
use adaptive_advertisement.Common.{ℕ, Option, String, List, [], ◌∷◌, ◌++◌}
use adaptive_advertisement.Decision.Signal.{Signal}
use adaptive_advertisement.Decision.Gateway.{Delivery}
use adaptive_advertisement.Decision.Loop.{DecisionLoop, Moment, freeze_reason, tick_with}

-- What one tick reads.
pub record Reading : Type 0 where
  pub moment : Moment
  pub signal : Option Signal
  pub age : Option ℕ

unfoldable pub reason_of : Reading → Option String
unfolding freeze_reason
reason_of r = freeze_reason r.moment.stale_signal_threshold_ms r.signal r.age

unfoldable pub after : DecisionLoop → Reading → DecisionLoop
unfolding tick_with
after l r = (tick_with r.moment l r.signal r.age).0

unfoldable pub sent_by : DecisionLoop → Reading → List Delivery
unfolding tick_with
sent_by l r = (tick_with r.moment l r.signal r.age).2

-- The loop after the readings, and all that the players got. An exception ends its own tick only.
unfoldable pub run : DecisionLoop → List Reading → DecisionLoop × List Delivery
unfolding after sent_by
run l [] = (l, [])
run l (r ∷ rs) = let rest = run (after l r) rs in (rest.0, sent_by l r ++ rest.1)
