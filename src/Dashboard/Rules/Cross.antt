-- ===== src/Dashboard/Rules/Cross.antt =====
-- When a cross-dimension rule matches.
use adaptive_advertisement.Common.{ℕ, String, ◌≡◌, sym, ◌∙◌, ◌↔◌, true, false, Option, none, some}
use mathlib.Core.Option.{some-injective}
use adaptive_advertisement.Decision.Signal.{Signal, Presence}
use adaptive_advertisement.Decision.Policy.{Conditions, Rule, matches}
use adaptive_advertisement.Dashboard.Tags.{
  AudienceTag, TimeTag, dimension, is_gate_excluded, audience_conditions, Slot,
}
use adaptive_advertisement.Dashboard.Rules.{
  inject_attention_gate, restrict, plain_rule, timed_rule, is_crossed, cross_conditions, cross_rule,
}
use adaptive_advertisement.Dashboard.Rules.Synced.{rule_of}
use adaptive_advertisement.Dashboard.Rules.Meeting.{
  Meets, MeetsSome, matches_meets, InSlot, restricted_iff,
}
use adaptive_advertisement.Dashboard.Rules.Merging.{
  gated, audience-IsLower, gated_of_crossed, both, both_parts, both_whole, both-IsLower,
}

-- Met by the signal, in a slot.
abbrev MeetsIn : Option Slot → Conditions → Signal → ℕ → Type 0
MeetsIn slot c s hour = (p : Presence) × (s.presence ≡ some p) × Meets c s hour p × InSlot slot hour

restricted_some :
    (slot : Option Slot) (c : Conditions) (s : Signal) (hour : ℕ)
    → c.time_hour_gte ≡ none
    → c.time_hour_lte ≡ none
    → MeetsSome (restrict slot c) s hour ↔ MeetsIn slot c s hour
restricted_some slot c s hour e f = (
  λ (p, seen, m). let (x, y) = (restricted_iff slot c s hour p e f).0 m in (p, seen, x, y),
  λ (p, seen, x, y). (p, seen, (restricted_iff slot c s hour p e f).1 (x, y)),
)

-- The rule of a tag with a dimension, in a slot.
tag_iff :
    (slot : Option Slot) (a : AudienceTag) (s : Signal) (hour : ℕ)
    → is_gate_excluded a ≡ false
    → MeetsSome (restrict slot (inject_attention_gate (audience_conditions a) a)) s hour
      ↔ MeetsIn slot (gated (audience_conditions a)) s hour
unfolding inject_attention_gate
tag_iff slot a s hour g =
    let l = audience-IsLower a in
    rw g (restricted_some slot (gated (audience_conditions a)) s hour l.from_hour l.to_hour)

rules_iff :
    (r x y : Rule) (s : Signal) (hour : ℕ)
    → MeetsSome r.conditions s hour
      ↔ (MeetsSome x.conditions s hour × MeetsSome y.conditions s hour)
    → (matches r s (some hour) hour ≡ true)
      ↔ ((matches x s (some hour) hour ≡ true) × (matches y s (some hour) hour ≡ true))
rules_iff r x y s hour e = (
  λ h.
      let n = e.0 ((matches_meets r s hour).0 h) in
      ((matches_meets x s hour).1 n.0, (matches_meets y s hour).1 n.1),
  λ h.
      (matches_meets r s hour).1
        (e.1 ((matches_meets x s hour).0 h.0, (matches_meets y s hour).0 h.1)),
)

-- The merged conditions are met exactly when those of both tags are.
both_iff :
    (slot : Option Slot) (a b : AudienceTag) (s : Signal) (hour : ℕ)
    → is_crossed (dimension a) (dimension b) ≡ true
    → MeetsIn slot (both a b) s hour ↔ (
        MeetsIn slot (gated (audience_conditions a)) s hour
        × MeetsIn slot (gated (audience_conditions b)) s hour)
both_iff slot a b s hour differ = (
  λ (p, seen, m, i).
      let (x, y) = both_parts a b differ s hour p m in ((p, seen, x, i), (p, seen, y, i)),
  λ h.
      let (p, seen, m, i) = h.0 in
      let (q, also, n, j) = h.1 in
      (p, seen, both_whole a b differ s hour p m (rw (some-injective _ _ (sym seen ∙ also)) n), i),
)

crossed_iff :
    (slot : Option Slot) (a b : AudienceTag) (s : Signal) (hour : ℕ)
    → is_crossed (dimension a) (dimension b) ≡ true
    → MeetsSome (cross_conditions slot a b) s hour ↔ (
        MeetsSome (restrict slot (inject_attention_gate (audience_conditions a) a)) s hour
        × MeetsSome (restrict slot (inject_attention_gate (audience_conditions b) b)) s hour)
unfolding cross_conditions
crossed_iff slot a b s hour differ =
    let l = both-IsLower a b in
    let (g, h) = gated_of_crossed a b differ in
    let merged = restricted_some slot (both a b) s hour l.from_hour l.to_hour in
    let parts = both_iff slot a b s hour differ in
    let left = tag_iff slot a s hour g in
    let right = tag_iff slot b s hour h in
    (
      λ m. let n = parts.0 (merged.0 m) in (left.1 n.0, right.1 n.1),
      λ n. merged.1 (parts.1 (left.0 n.0, right.0 n.1)),
    )

-- A cross-dimension rule matches a signal exactly when the rules of both of its tags do, without a
-- time tag and in each slot of a time tag.
pub cross-matches_iff :
    (id : String) (bonus : ℕ) (t : TimeTag) (idx : ℕ) (slot : Option Slot) (a b : AudienceTag)
    (s : Signal) (hour : ℕ)
    → is_crossed (dimension a) (dimension b) ≡ true
    → ((matches (rule_of (cross_rule id bonus none 0 none a b)) s (some hour) hour ≡ true) ↔ (
        (matches (rule_of (plain_rule id bonus a)) s (some hour) hour ≡ true)
        × (matches (rule_of (plain_rule id bonus b)) s (some hour) hour ≡ true)))
      × ((matches (rule_of (cross_rule id bonus (some t) idx slot a b)) s (some hour) hour ≡ true)
          ↔ ((matches (rule_of (timed_rule id bonus t idx slot a)) s (some hour) hour ≡ true)
              × (matches (rule_of (timed_rule id bonus t idx slot b)) s (some hour) hour ≡ true)))
unfolding cross_rule plain_rule timed_rule restrict
cross-matches_iff id bonus t idx slot a b s hour differ = (
  rules_iff (rule_of (cross_rule id bonus none 0 none a b)) (rule_of (plain_rule id bonus a))
      (rule_of (plain_rule id bonus b)) s hour (crossed_iff none a b s hour differ),
  rules_iff (rule_of (cross_rule id bonus (some t) idx slot a b))
      (rule_of (timed_rule id bonus t idx slot a)) (rule_of (timed_rule id bonus t idx slot b)) s
      hour (crossed_iff slot a b s hour differ),
)
