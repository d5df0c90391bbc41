-- ===== src/Decision/Signal.antt =====
-- The audience-state signal (ICD-3), as much as services/decision-optimizer reads of it. A key that
-- the schema leaves optional is an option. Fractions (confidences, shares) are natural numbers in
-- one small unit: the code only compares them with thresholds, and with the default 0.0.
use adaptive_advertisement.Common.{ℕ, String, Bool, true, false, Option, none, some}

-- The bins of `demographics`, in the order of `_DEMOGRAPHIC_CONDITION_FIELDS`.
pub data Bin : Type 0 where
  child young_adult adult senior : Bin
  male female : Bin
  formal business_casual casual athletic outdoor_technical : Bin
  workwear_uniform streetwear luxury_premium lounge_comfort smart_occasion : Bin

pub record Presence : Type 0 where
  pub count : ℕ
  pub confidence : ℕ

pub record Demographics : Type 0 where
  pub suppressed : Option Bool
  -- `age_group`, `gender` and `attire` in one: a bin that is not there is none
  pub bins : Bin → Option ℕ

-- `attention.engaged`
pub record Attention : Type 0 where
  pub engaged : Option ℕ

pub record Signal : Type 0 where
  pub message_id : String
  pub presence : Option Presence
  pub demographics : Option Demographics
  pub attention : Option Attention
  pub freeze_decision : Option Bool
  pub pipeline_degraded : Option Bool

-- `d.get(key, False)`
abbrev pub or_false : Option Bool → Bool
or_false none = false
or_false (some b) = b

-- `bool(demographics_block.get("suppressed", True))`: no block, or no flag, means suppressed.
unfoldable pub is_suppressed : Signal → Bool
is_suppressed s = elim s.demographics [
  | none ↦ true
  | some d ↦ elim d.suppressed [ none ↦ true | some b ↦ b ]
]

-- `float(group.get(bin, 0.0))`
unfoldable pub share : Signal → Bin → ℕ
share s b = elim s.demographics [ none ↦ 0 | some d ↦ elim (d.bins b) [ none ↦ 0 | some v ↦ v ] ]
