-- ===== src/Dashboard/Rules/Meeting.antt =====
-- When a signal meets conditions, and conditions in a slot.
use adaptive_advertisement.Common.{ℕ, ◌≤◌, ◌≡◌, refl, ◌↔◌, Bool, true, false, Option, none, some}
use mathlib.Core.Option.{some-injective}
use adaptive_advertisement.Decision.Signal.{Bin, Signal, Presence, Attention, is_suppressed, share}
use adaptive_advertisement.Decision.Policy.{Conditions, Rule, matches}
use adaptive_advertisement.Decision.Policy.Matching.{matches_iff}
use adaptive_advertisement.Dashboard.Tags.{Slot}
use adaptive_advertisement.Dashboard.Rules.{restrict}
use adaptive_advertisement.Dashboard.Rules.Bounds.{Bound}

-- The conditions of one rule at a signal with presence `p`.
pub record Meets (c : Conditions) (s : Signal) (hour : ℕ) (p : Presence) : Type 0 where
  pub count_gte : Bound (λ t. t ≤ p.count) c.presence_count_gte
  pub count_lte : Bound (λ t. p.count ≤ t) c.presence_count_lte
  pub count_eq : Bound (λ t. p.count ≡ t) c.presence_count_eq
  pub confidence : Bound (λ t. t ≤ p.confidence) c.presence_confidence_gte
  pub attention :
      (a : Attention) (v : ℕ)
      → s.attention ≡ some a
      → a.engaged ≡ some v
      → Bound (λ t. t ≤ v) c.attention_engaged_gte
  pub suppression : (b : Bool) → c.demographics_suppressed_eq ≡ some b → is_suppressed s ≡ b
  pub demographics :
      (b : Bin) → Bound (λ t. (is_suppressed s ≡ false) × (t ≤ share s b)) (c.demographic_gte b)
  pub from_hour : Bound (λ t. t ≤ hour) c.time_hour_gte
  pub to_hour : Bound (λ t. hour ≤ t) c.time_hour_lte

abbrev pub MeetsSome : Conditions → Signal → ℕ → Type 0
MeetsSome c s hour = (p : Presence) × (s.presence ≡ some p) × Meets c s hour p

pub matches_meets :
    (r : Rule) (s : Signal) (hour : ℕ)
    → (matches r s (some hour) hour ≡ true) ↔ MeetsSome r.conditions s hour
matches_meets r s hour = (
  λ h.
      let q = (matches_iff r s hour).0 h in
      (
        q.presence,
        q.seen,
        record {
          count_gte = q.count_gte;
          count_lte = q.count_lte;
          count_eq = q.count_eq;
          confidence = q.confidence;
          attention = q.attention;
          suppression = q.suppression;
          demographics = q.demographics;
          from_hour = q.from_hour;
          to_hour = q.to_hour;
        },
      ),
  λ (p, e, m). (matches_iff r s hour).1 (record {
    presence = p;
    seen = e;
    count_gte = m.count_gte;
    count_lte = m.count_lte;
    count_eq = m.count_eq;
    confidence = m.confidence;
    attention = m.attention;
    suppression = m.suppression;
    demographics = m.demographics;
    from_hour = m.from_hour;
    to_hour = m.to_hour;
  }),
)

abbrev pub InSlot : Option Slot → ℕ → Type 0
InSlot none hour = Unit
InSlot (some t) hour = (t.gte ≤ hour) × (hour ≤ t.lte)

-- Conditions without hours, put into a slot.
pub restricted_iff :
    (slot : Option Slot) (c : Conditions) (s : Signal) (hour : ℕ) (p : Presence)
    → c.time_hour_gte ≡ none
    → c.time_hour_lte ≡ none
    → Meets (restrict slot c) s hour p ↔ (Meets c s hour p × InSlot slot hour)
unfolding restrict
restricted_iff none c s hour p e f = (λ m. (m, tt), λ m. m.0)
restricted_iff (some t) c s hour p e f = (
  λ m. (
    record {
      count_gte = m.count_gte;
      count_lte = m.count_lte;
      count_eq = m.count_eq;
      confidence = m.confidence;
      attention = m.attention;
      suppression = m.suppression;
      demographics = m.demographics;
      from_hour = λ i h. cc e;
      to_hour = λ i h. cc f;
    },
    (m.from_hour t.gte refl, m.to_hour t.lte refl),
  ),
  λ (m, h). record {
    count_gte = m.count_gte;
    count_lte = m.count_lte;
    count_eq = m.count_eq;
    confidence = m.confidence;
    attention = m.attention;
    suppression = m.suppression;
    demographics = m.demographics;
    from_hour = λ i k. rw (← some-injective _ _ k) h.0;
    to_hour = λ i k. rw (← some-injective _ _ k) h.1;
  },
)
