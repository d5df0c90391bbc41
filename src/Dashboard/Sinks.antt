-- ===== src/Dashboard/Sinks.antt =====
-- services/dashboard-api/dashboard_api/audience_sink.py and play_event_sink.py: the loop that connects to
-- the broker again and again, the same in both. Times are in ms.
pub mod Waits
use adaptive_advertisement.Common.{ℕ, ◌*◌, min, List, [], ◌∷◌, ◌++◌}

abbrev pub backoff_initial : ℕ
backoff_initial = 2_000

abbrev pub backoff_max : ℕ
backoff_max = 60_000

-- One turn of the loop, with the deliveries that come while the connection stands. `refused`: there is no
-- connection. `lost`: it ends in an error, of the broker or of another kind. `closed`: the messages end
-- without an error.
pub data Round (D : Type 0) : Type 0 where
  refused : Round D
  lost : List D → Round D
  closed : List D → Round D

pub record Sink (T : Type 0) : Type 0 where
  pub table : T
  pub backoff : ℕ
  -- the sleeps so far
  pub sleeps : List ℕ

module _ {D T : Type 0} (consume : List D → T → T) where
  -- `sleep(backoff)`, and the next one is twice as long
  wait : Sink T → Sink T
  wait s = record s {
    sleeps = s.sleeps ++ s.backoff ∷ [];
    backoff = min (s.backoff * 2) backoff_max;
  }

  connect : List D → Sink T → Sink T
  connect ds s = record s { table = consume ds s.table; backoff = backoff_initial }

  unfoldable pub turn : Round D → Sink T → Sink T
  unfolding wait connect
  turn refused s = wait s
  turn (lost ds) s = wait (connect ds s)
  turn (closed ds) s = connect ds s

  unfoldable pub run : List (Round D) → Sink T → Sink T
  run [] s = s
  run (r ∷ rs) s = run rs (turn r s)

abbrev pub new : {T : Type 0} → T → Sink T
new t = record { table = t; backoff = backoff_initial; sleeps = [] }
