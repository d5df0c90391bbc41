-- ===== src/Supervisor/Storage/Levels.antt =====
-- When the disk monitor warns.
use adaptive_advertisement.Common.{◌*◌, ◌<◌, ◌≤◌, ◌≡◌, ◌↔◌, arith}
use native.Mathlib.Nat.{mul-le-mul_left}
use adaptive_advertisement.Supervisor.Storage.{
  warning, critical, StorageStatus, level_of, is_warning, is_critical, reaches,
}

-- If the critical threshold is not below the warning threshold, the log line is critical from the
-- critical threshold on, and a warning from the warning threshold to below the critical one.
pub level_of_lem :
    (s : StorageStatus)
    → s.warn_pct ≤ s.critical_pct
    → ((level_of s ≡ critical) ↔ (s.critical_pct * s.used_pct.den ≤ s.used_pct.num))
      × ((level_of s ≡ warning) ↔ (
          (s.warn_pct * s.used_pct.den ≤ s.used_pct.num)
          × (s.used_pct.num < s.critical_pct * s.used_pct.den)))
unfolding level_of is_warning is_critical reaches
level_of_lem s order = let scaled = mul-le-mul_left s.used_pct.den order in ground (arith, scaled)
