-- ===== src/Dashboard/SafeMode.antt =====
-- services/dashboard-api/dashboard_api/routers/system.py: the safe-mode intent of the operator, in the
-- one row of the table `safe_mode_state`.
pub mod Intent
use adaptive_advertisement.Common.{
  ℕ, String, Bool, true, false, Option, none, some, List, [], ◌∷◌, if◌then◌else◌, Dict,
}
use adaptive_advertisement.Dashboard.Audit.{
  safe_mode_engaged, safe_mode_cleared, reason, empty, AuditEvent, write_event,
}

pub record SafeModeState : Type 0 where
  pub is_active : Bool
  pub reason : Option String
  pub activated_at : Option ℕ
  pub activated_by : Option String
  pub updated_at : ℕ

pub record Store : Type 0 where
  pub row : Option SafeModeState
  pub audit_events : List AuditEvent

pub record SafeModeInfo : Type 0 where
  pub active : Bool
  pub reason : Option String
  pub activated_at : Option ℕ

created_row : (now : ℕ) → Option SafeModeState → SafeModeState
created_row now none = record {
  is_active = false;
  reason = none;
  activated_at = none;
  activated_by = none;
  updated_at = now;
}
created_row now (some row) = row

-- `_get_or_create_safe_mode`
unfoldable pub get_or_create_safe_mode : (now : ℕ) → Store → SafeModeState
unfolding created_row
get_or_create_safe_mode now s = created_row now s.row

unfoldable pub info : SafeModeState → SafeModeInfo
info row = record { active = row.is_active; reason = row.reason; activated_at = row.activated_at }

unfoldable pub get_safe_mode : (now : ℕ) → Store → SafeModeInfo × Store
unfolding info
get_safe_mode now s =
    let row = get_or_create_safe_mode now s in (info row, record s { row = some row })

unfoldable pub engage_safe_mode :
    (now : ℕ) (reason activated_by : String) → Store → SafeModeInfo × Store
engage_safe_mode now why by s =
    let row = get_or_create_safe_mode now s in
    if row.is_active
    then (record { active = true; reason = row.reason; activated_at = row.activated_at }, s)
    else (
      record { active = true; reason = some why; activated_at = some now },
      record {
        row = some (record {
          is_active = true;
          reason = some why;
          activated_at = some now;
          activated_by = some by;
          updated_at = now;
        });
        audit_events =
            write_event now safe_mode_engaged "system" "system" by (reason why) s.audit_events;
      },
    )

-- Where nothing is committed, a row that the request made is not kept.
unfoldable pub clear_safe_mode : (now : ℕ) (cleared_by : String) → Store → SafeModeInfo × Store
clear_safe_mode now by s =
    let row = get_or_create_safe_mode now s in
    if row.is_active
    then (
      record { active = false; reason = none; activated_at = none },
      record {
        row = some (record {
          is_active = false;
          reason = none;
          activated_at = none;
          activated_by = none;
          updated_at = now;
        });
        audit_events = write_event now safe_mode_cleared "system" "system" by empty s.audit_events;
      },
    )
    else (record { active = false; reason = none; activated_at = none }, s)

-- A value of a JSON object.
pub data Value : Type 0 where
  null : Value
  flag : Bool → Value
  text : String → Value
  number : ℕ → Value

optional : {A : Type 0} → (A → Value) → Option A → Value
optional f none = null
optional f (some a) = f a

-- The body of the answer: the fields of the response model under their names.
unfoldable pub body : SafeModeInfo → Dict Value
unfolding optional
body i =
    ("active", flag i.active)
    ∷ ("reason", optional text i.reason)
    ∷ ("activated_at", optional number i.activated_at)
    ∷ []
