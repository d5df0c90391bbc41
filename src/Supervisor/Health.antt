-- ===== src/Supervisor/Health.antt =====
-- services/supervisor/supervisor/main.py: one pass of `_health_loop` over the services.
pub mod Ladder
pub mod Recent
pub mod Window
pub mod Attempts
use adaptive_advertisement.Common.{
  ℕ, String, Bool, true, false, Option, none, some, List, [], ◌∷◌, ◌++◌, if◌then◌else◌, Dict,
  lookup, insert,
}
use adaptive_advertisement.Common.Outcome.{Outcome, ok, raised, Exception, key_error}
use adaptive_advertisement.Supervisor.Service.{
  Priority, critical, high, medium, ManagedService, ServiceState, new, record_healthy,
  record_failure, Response, probe,
}
use adaptive_advertisement.Supervisor.Restart.{
  RestartManager, RestartDecision, restarted, boot_loop, escalated, skipped, docker_failed, Docker,
  evaluate,
}
use adaptive_advertisement.Supervisor.Relay.{
  SafeModeRelay, Request, PlayerStatus, engage_safe_mode_supervisor,
}

-- What one look at one service meets.
pub record Check : Type 0 where
  pub response : Response
  pub now : ℕ
  pub docker : Docker
  pub player : PlayerStatus

-- The state of the service after the probe, and the decision of the ladder if it was asked.
unfoldable pub assess :
    RestartManager → Check → ServiceState → (healthy : Bool) → ServiceState × Option RestartDecision
unfolding record_healthy record_failure evaluate
assess m c s true = (record_healthy s, none)
assess m c s false = let (s', d) = evaluate m c.docker c.now (record_failure s) in (s', some d)

abbrev is_final : RestartDecision → Bool
is_final boot_loop = true
is_final escalated = true
is_final _ = false

abbrev is_critical : Priority → Bool
is_critical critical = true
is_critical _ = false

unfoldable pub escalate :
    Priority → PlayerStatus → SafeModeRelay → Option RestartDecision → SafeModeRelay × List Request
unfolding engage_safe_mode_supervisor
escalate p a r none = (r, [])
escalate p a r (some d) =
    if is_final d
    then if is_critical p then engage_safe_mode_supervisor "supervisor_escalation" a r else (r, [])
    else (r, [])

-- The body of the loop for one service: its state, the relay, and what the player is asked.
unfoldable pub watch :
    RestartManager
    → ManagedService
    → Check
    → ServiceState
    → SafeModeRelay
    → ServiceState × SafeModeRelay × List Request
unfolding probe assess escalate
watch m svc c s r =
    let (s', d) = assess m c s (probe svc.name svc.healthz_url c.response).healthy in
    let (r', out) = escalate svc.priority c.player r d in (s', r', out)

abbrev pub Pass : Type 0
Pass = Dict ServiceState × SafeModeRelay × List Request

-- `states[svc.name]` is changed in place.
watch_at : RestartManager → ManagedService → Check → Pass → Option ServiceState → Outcome Pass
unfolding watch insert
watch_at m svc c (states, r, out) none = raised key_error
watch_at m svc c (states, r, out) (some s) =
    let (s', r', more) = watch m svc c s r in ok (insert svc.name s' states, r', out ++ more)

continue : Outcome Pass → (Pass → Outcome Pass) → Outcome Pass
continue (ok p) f = f p
continue (raised e) f = raised e

-- One pass over the services, each with what it meets.
unfoldable pub sweep : RestartManager → List (ManagedService × Check) → Pass → Outcome Pass
unfolding watch_at continue lookup
sweep m [] p = ok p
sweep m ((svc, c) ∷ rest) p =
    continue (watch_at m svc c p (lookup svc.name p.0)) (λ p'. sweep m rest p')

-- `states` of `run`
unfoldable pub initial_states : List ManagedService → Dict ServiceState
unfolding insert new
initial_states services = go [] services
  where
    go : Dict ServiceState → List ManagedService → Dict ServiceState
    go d [] = d
    go d (s ∷ rest) = go (insert s.name (new s.name) d) rest
