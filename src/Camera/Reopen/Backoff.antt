-- ===== src/Camera/Reopen/Backoff.antt =====
-- How the waits grow.
use adaptive_advertisement.Common.{ℕ, suc, ◌≤◌, arith}
use native.Mathlib.Nat.{pow-le-pow_right, mul-le-mul_left}
use adaptive_advertisement.Camera.Reopen.{next_backoff}

pub next_backoff-le : (attempt initial limit : ℕ) → next_backoff attempt initial limit ≤ limit
unfolding next_backoff
next_backoff-le attempt initial limit = omega arith

pub next_backoff_grows :
    (attempt initial limit : ℕ)
    → next_backoff attempt initial limit ≤ next_backoff (suc attempt) initial limit
unfolding next_backoff
next_backoff_grows attempt initial limit = omega (
  arith,
  mul-le-mul_left initial
      (pow-le-pow_right {n = 2} (omega arith) {i = attempt} {j = suc attempt} (omega arith)),
)
