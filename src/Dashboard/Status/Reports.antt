-- ===== src/Dashboard/Status/Reports.antt =====
-- What the status reports.
use adaptive_advertisement.Common.{ℕ, ◌≡◌, ◌≢◌, ◌↔◌, false, Bool-cases, arith, inl, inr}
use adaptive_advertisement.Dashboard.Status.{
  Answer, answered, timed_out, client_error, probe_service, Probes, Overall, is_unhealthy, is_down,
  overall,
}

-- A service is up: it answers 200 in time.
abbrev pub IsUp : Answer → Type 0
IsUp a = (latency : ℕ) × (a ≡ answered 200 latency)

IsUp-iff : (a : Answer) → (is_down a ≡ false) ↔ IsUp a
unfolding is_down is_unhealthy probe_service
IsUp-iff (answered code latency) = (λ h. (latency, ground arith), λ (l, e). ground arith)
IsUp-iff timed_out = (λ h. cc, λ (l, e). cc)
IsUp-iff (client_error text) = (λ h. cc, λ (l, e). cc)

abbrev pub AllUp : Probes → Type 0
AllUp p = IsUp p.player × IsUp p.audience_state × IsUp p.decision_optimizer × IsUp p.creative

all_up :
    (p : Probes)
    → is_down p.player ≡ false
    → is_down p.audience_state ≡ false
    → is_down p.decision_optimizer ≡ false
    → is_down p.creative ≡ false
    → AllUp p
all_up p a b c d = (
  (IsUp-iff p.player).0 a,
  (IsUp-iff p.audience_state).0 b,
  (IsUp-iff p.decision_optimizer).0 c,
  (IsUp-iff p.creative).0 d,
)

overall_up : (p : Probes) → is_down p.player ≡ false → overall p ≢ Overall.critical
unfolding overall
overall_up p e h = ground arith

-- The system is reported healthy exactly when each of the four services answers 200 in time, and
-- critical exactly when the player does not.
pub overall_lem :
    (p : Probes)
    → ((overall p ≡ Overall.healthy) ↔ AllUp p)
      × ((overall p ≡ Overall.critical) ↔ (¬ IsUp p.player))
unfolding overall
overall_lem p = (
  (
    λ h. all_up p (ground arith) (ground arith) (ground arith) (ground arith),
    λ (a, b, c, d). rw (
      (IsUp-iff p.player).1 a,
      (IsUp-iff p.audience_state).1 b,
      (IsUp-iff p.decision_optimizer).1 c,
      (IsUp-iff p.creative).1 d,
    ),
  ),
  (
    λ h u. overall_up p ((IsUp-iff p.player).1 u) h,
    λ n. elim (Bool-cases (is_down p.player)) [
      | inl down ↦ rw down
      | inr up ↦ absurd (n ((IsUp-iff p.player).0 up))
    ],
  ),
)
