-- ===== src/Supervisor/Storage.antt =====
-- services/supervisor/supervisor/storage_monitor.py: how full the disk is. A percentage is a fraction.
pub mod Levels
use adaptive_advertisement.Common.{
  ℕ, zero, suc, ◌*◌, ◌==◌, String, Bool, true, false, Option, none, some, leb, if◌then◌else◌,
}

-- `num / den`
pub record Percent : Type 0 where
  pub num : ℕ
  pub den : ℕ

unfoldable pub reaches : Percent → ℕ → Bool
reaches p pct = leb (pct * p.den) p.num

pub record StorageStatus : Type 0 where
  pub path : String
  pub total_bytes : ℕ
  pub used_bytes : ℕ
  pub free_bytes : ℕ
  pub used_pct : Percent
  pub warn_pct : ℕ
  pub critical_pct : ℕ

unfoldable pub is_warning : StorageStatus → Bool
is_warning s = reaches s.used_pct s.warn_pct

unfoldable pub is_critical : StorageStatus → Bool
is_critical s = reaches s.used_pct s.critical_pct

-- What `shutil.disk_usage` gives.
pub record Usage : Type 0 where
  pub total : ℕ
  pub used : ℕ
  pub free : ℕ

-- The level of the log line.
pub data Level : Type 0 where
  error critical warning debug : Level

pub data Checked : Type 0 where
  checked : StorageStatus → Level → Checked
  zero_division : Checked

status_of : String → (warn_pct critical_pct : ℕ) → Usage → StorageStatus
status_of path warn crit u = record {
  path = path;
  total_bytes = u.total;
  used_bytes = u.used;
  free_bytes = u.free;
  used_pct = record { num = u.used * 100; den = u.total };
  warn_pct = warn;
  critical_pct = crit;
}

unfoldable pub level_of : StorageStatus → Level
level_of s = if is_critical s then critical else if is_warning s then warning else debug

-- `none` is an OSError. A disk of no bytes raises a ZeroDivisionError, which is not one.
unfoldable pub check_storage : (path : String) (warn_pct critical_pct : ℕ) → Option Usage → Checked
unfolding status_of
check_storage path warn crit none =
    checked
      (record {
        path = path;
        total_bytes = 0;
        used_bytes = 0;
        free_bytes = 0;
        used_pct = record { num = 0; den = 1 };
        warn_pct = warn;
        critical_pct = crit;
      })
      error
check_storage path warn crit (some u) =
    let s = status_of path warn crit u in
    if u.total == 0 then zero_division else checked s (level_of s)
