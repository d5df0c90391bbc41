-- ===== src/Supervisor/Service.antt =====
-- services/supervisor/supervisor/service_table.py and health_probe.py. Times are milliseconds of the
-- monotonic clock, and the addresses of config.py are parameters.
use adaptive_advertisement.Common.{
  ℕ, ◌+◌, String, Bool, true, false, Option, none, some, List, [], ◌∷◌, ◌++◌, filter, leb, ltb,
}

pub data Priority : Type 0 where
  critical high medium : Priority

pub record ManagedService : Type 0 where
  pub name : String
  pub healthz_url : String
  pub container_name : String
  pub priority : Priority

pub record ServiceState : Type 0 where
  pub name : String
  pub is_healthy : Bool
  pub consecutive_failures : ℕ
  pub restart_count : ℕ
  pub restart_timestamps : List ℕ
  pub last_restart_at : Option ℕ
  pub in_boot_loop : Bool
  pub escalated : Bool

unfoldable pub new : String → ServiceState
new name = record {
  name = name;
  is_healthy = true;
  consecutive_failures = 0;
  restart_count = 0;
  restart_timestamps = [];
  last_restart_at = none;
  in_boot_loop = false;
  escalated = false;
}

unfoldable pub record_healthy : ServiceState → ServiceState
record_healthy s = record s { is_healthy = true; consecutive_failures = 0 }

unfoldable pub record_failure : ServiceState → ServiceState
record_failure s = record s {
  is_healthy = false;
  consecutive_failures = s.consecutive_failures + 1;
}

unfoldable pub record_restart : (now : ℕ) → ServiceState → ServiceState
record_restart now s = record s {
  restart_count = s.restart_count + 1;
  restart_timestamps = s.restart_timestamps ++ (now ∷ []);
  last_restart_at = some now;
}

-- `t >= now - window`
abbrev pub is_recent : (window now : ℕ) → ℕ → Bool
is_recent window now t = leb now (t + window)

unfoldable pub prune_timestamps : (window now : ℕ) → ServiceState → ServiceState
prune_timestamps window now s = record s {
  restart_timestamps = filter (is_recent window now) s.restart_timestamps;
}

-- `(url, container)` of a service
abbrev pub Address : Type 0
Address = String × String

unfoldable pub build_service_table :
    (player decision_optimizer audience_state creative dashboard_api : Address)
    → List ManagedService
build_service_table player decision_optimizer audience_state creative dashboard_api =
    service "player" player critical
    ∷ service "decision-optimizer" decision_optimizer high
    ∷ service "audience-state" audience_state high
    ∷ service "creative" creative medium
    ∷ service "dashboard-api" dashboard_api medium
    ∷ []
  where
    service : String → Address → Priority → ManagedService
    service name a p = record { name = name; healthz_url = a.0; container_name = a.1; priority = p }

-- What comes of one GET of a health address.
pub data Response : Type 0 where
  status : ℕ → Response
  connector_error timeout_error other_error : (text : String) → Response

-- `latency_ms` is only logged, and is left out.
pub record ProbeResult : Type 0 where
  pub name : String
  pub url : String
  pub healthy : Bool
  pub status_code : Option ℕ
  pub error : Option String

failed : (name url text : String) → ProbeResult
failed name url text = record {
  name = name;
  url = url;
  healthy = false;
  status_code = none;
  error = some text;
}

unfoldable pub probe : (name url : String) → Response → ProbeResult
unfolding failed
probe name url (status n) = record {
  name = name;
  url = url;
  healthy = ltb n 500;
  status_code = some n;
  error = none;
}
probe name url (connector_error text) = failed name url text
probe name url (timeout_error text) = failed name url text
probe name url (other_error text) = failed name url text
