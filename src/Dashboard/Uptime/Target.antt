-- ===== src/Dashboard/Uptime/Target.antt =====
-- When the availability target counts as met.
use adaptive_advertisement.Common.{
  ℕ, ◌+◌, ◌*◌, ◌/◌, ◌%◌, ◌≤◌, ◌<◌, ◌≡◌, ◌↔◌, true, some, List, [], ◌∷◌, leb, length, arith,
  Bool-cases, inl, inr, ap,
}
use mathlib.Core.Option.{some-injective}
use native.Mathlib.Nat.{div-add-mod, mod-lt, mul-le-mul_left}
use adaptive_advertisement.Audience.Numbers.{round_div}
use adaptive_advertisement.Dashboard.Uptime.{
  UptimeEvent, slo_target_pct, count_healthy, uptime_pct, summary_of, window, get_uptime_summary,
}

abbrev IsReached : ℕ → ℕ → Type 0
IsReached a n = (leb slo_target_pct (round_div a n) ≡ true) ↔ (19_899 * n ≤ 2 * a)

-- A quotient below 99.49 %, at it, and above it.
low_quotient : (a n : ℕ) → 0 < n → a / n ≤ 9_948 → IsReached a n
unfolding round_div
low_quotient a n h q =
    let parts = div-add-mod a n in
    let rest = mod-lt a h in
    let few = mul-le-mul_left n q in (λ e. absurd (ground arith), λ e. absurd (omega arith))

at_quotient : (a n : ℕ) → 0 < n → a / n ≡ 9_949 → IsReached a n
unfolding round_div
at_quotient a n h q =
    let parts : n * 9_949 + a % n ≡ a = rw q at (div-add-mod a n) in
    let rest = mod-lt a h in rw q (λ e. ground arith, λ e. ground arith)

high_quotient : (a n : ℕ) → 0 < n → 9_950 ≤ a / n → IsReached a n
unfolding round_div
high_quotient a n h q =
    let parts = div-add-mod a n in
    let many = mul-le-mul_left n q in (λ e. omega arith, λ e. ground arith)

reached : (a n : ℕ) → 0 < n → IsReached a n
reached a n h = elim (Bool-cases (leb (a / n) 9_948)) [
  | inl low ↦ low_quotient a n h (ground arith)
  | inr above ↦ elim (Bool-cases (leb (a / n) 9_949)) [
    | inl at_it ↦ at_quotient a n h (ground arith)
    | inr over ↦ high_quotient a n h (ground arith)
  ]
]

met :
    (rows : List UptimeEvent)
    → 0 < length rows
    → ((summary_of rows).slo_met ≡ some true) ↔ (19_899 * length rows ≤ 20_000 * count_healthy rows)
unfolding summary_of uptime_pct
met [] h = absurd (omega arith)
met (r ∷ rs) h =
    let rows = r ∷ rs in
    let both = reached (10_000 * count_healthy rows) (length rows) h in
    (λ e. omega (arith, both.0 (some-injective _ _ e)), λ e. ap some (both.1 (omega arith)))

-- The target of 99.5 % counts as met exactly when at least 99.495 % of the probes are healthy, because
-- the percentage is rounded before it is compared.
pub slo_met_iff :
    (hours now : ℕ) (table : List UptimeEvent)
    → 0 < length (window hours now table)
    → ((get_uptime_summary hours now table).slo_met ≡ some true)
      ↔ (19_899 * length (window hours now table) ≤ 20_000 * count_healthy (window hours now table))
unfolding get_uptime_summary
slo_met_iff hours now table h = met (window hours now table) h
