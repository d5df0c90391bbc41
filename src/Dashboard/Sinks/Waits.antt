-- ===== src/Dashboard/Sinks/Waits.antt =====
-- How long a sink waits before it connects again.
use adaptive_advertisement.Common.{ℕ, ◌≤◌, List, [], ◌∷◌, All, All-append, arith}
use adaptive_advertisement.Dashboard.Sinks.{
  backoff_initial, backoff_max, Round, refused, lost, closed, Sink, wait, connect, turn, run,
}

abbrev IsBetween : ℕ → Type 0
IsBetween w = (backoff_initial ≤ w) × (w ≤ backoff_max)

pub record IsPatient {T : Type 0} (s : Sink T) : Type 0 where
  pub next : IsBetween s.backoff
  pub past : All IsBetween s.sleeps

module _ {D T : Type 0} (consume : List D → T → T) where
  wait-IsPatient : (s : Sink T) → IsPatient s → IsPatient (wait consume s)
  unfolding wait
  wait-IsPatient s p =
      let now = p.next in
      record {
        next = (omega arith, omega arith);
        past = All-append IsBetween s.sleeps (s.backoff ∷ []) p.past (p.next, tt);
      }

  connect-IsPatient : (ds : List D) (s : Sink T) → IsPatient s → IsPatient (connect consume ds s)
  unfolding connect
  connect-IsPatient ds s p = record { next = (omega arith, omega arith); past = p.past }

  turn-IsPatient : (r : Round D) (s : Sink T) → IsPatient s → IsPatient (turn consume r s)
  unfolding turn
  turn-IsPatient refused s p = wait-IsPatient s p
  turn-IsPatient (lost ds) s p = wait-IsPatient (connect consume ds s) (connect-IsPatient ds s p)
  turn-IsPatient (closed ds) s p = connect-IsPatient ds s p

  -- Every sleep of a sink is at least `backoff_initial` and at most `backoff_max`, however the broker
  -- behaves.
  pub run-IsPatient :
      (rs : List (Round D)) (s : Sink T) → IsPatient s → IsPatient (run consume rs s)
  unfolding run
  run-IsPatient [] s p = p
  run-IsPatient (r ∷ rs) s p = run-IsPatient rs (turn consume r s) (turn-IsPatient r s p)
