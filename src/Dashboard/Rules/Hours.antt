-- ===== src/Dashboard/Rules/Hours.antt =====
-- The hours of the rules of a manifest with a time tag.
use adaptive_advertisement.Common.{
  ℕ, ◌≤◌, String, ◌≡◌, refl, sym, ap, subst, ◌∙◌, ◌≢◌, true, Option, none, some, List, [], IsIn,
  All-IsIn,
}
use mathlib.Core.Option.{some-injective}
use adaptive_advertisement.Decision.Signal.{Signal}
use adaptive_advertisement.Decision.Policy.{Conditions, matches}
use adaptive_advertisement.Decision.Policy.Matching.{matches_iff}
use adaptive_advertisement.Dashboard.Tags.{
  TimeTag, Tag, freq_primary, Slot, time_window, freq_reminder,
}
use adaptive_advertisement.Dashboard.Rules.{
  Tagged, GeneratedRule, window_slots, restrict, timed_rule, presence_rule, cross_conditions,
  cross_rule,
}
use adaptive_advertisement.Dashboard.Rules.Generate.{
  times_of, frequency_of, generate_rules_for_manifest,
}
use adaptive_advertisement.Dashboard.Rules.Generate.Origins.{
  IsSlotOf, IsGenerated, plain, timed, present_in, crossed, crossed_in, IsRuleOf, primary, reminder,
  generate-All,
}
use adaptive_advertisement.Dashboard.Rules.Synced.{rule_of}

-- The hour lies in a window of the time tag; a tag without a window lets every hour pass.
pub data IsOpenAt (t : TimeTag) (hour : ℕ) : Type 0 where
  all_day : IsIn none (window_slots (time_window t)) → IsOpenAt t hour
  within :
      (s : Slot)
      → IsIn (some s) (window_slots (time_window t))
      → s.gte ≤ hour
      → hour ≤ s.lte
      → IsOpenAt t hour

restricted_open :
    (r : GeneratedRule) (c : Conditions) (t : TimeTag) (slot : Option Slot) (s : Signal) (hour : ℕ)
    → r.conditions ≡ restrict slot c
    → IsSlotOf t slot
    → matches (rule_of r) s (some hour) hour ≡ true
    → IsOpenAt t hour
unfolding restrict
restricted_open r c t none s hour e i h = all_day i.listed
restricted_open r c t (some w) s hour e i h =
    let q = (matches_iff (rule_of r) s hour).0 h in
    within w i.listed (q.from_hour w.gte (rw e)) (q.to_hour w.lte (rw e))

generated_open :
    {id : String} {bonus : ℕ} {tags : List _} {times : List TimeTag} {r : GeneratedRule}
    (s : Signal) (hour : ℕ)
    → IsGenerated id bonus tags times r
    → times ≢ []
    → matches (rule_of r) s (some hour) hour ≡ true
    → (t : TimeTag) × IsIn t times × IsOpenAt t hour
unfolding timed_rule presence_rule cross_rule cross_conditions
generated_open {id} {bonus} s hour (plain a i e) n h = absurd (n e)
generated_open {id} {bonus} s hour (timed a t idx slot i j w) n h =
    (t, j, restricted_open (timed_rule id bonus t idx slot a) _ t slot s hour refl w h)
generated_open {id} {bonus} s hour (present_in t idx slot i w) n h =
    (t, i, restricted_open (presence_rule id bonus t idx slot) _ t slot s hour refl w h)
generated_open {id} {bonus} s hour (crossed a b d e) n h = absurd (n e)
generated_open {id} {bonus} s hour (crossed_in a b t idx slot d i w) n h =
    (t, i, restricted_open (cross_rule id bonus (some t) idx slot a b) _ t slot s hour refl w h)

rule_open :
    {m : Tagged} {r : GeneratedRule} (tags : List Tag) (s : Signal) (hour : ℕ)
    → IsRuleOf m r
    → m.audience_tags ≡ some tags
    → times_of tags ≢ []
    → frequency_of tags ≡ freq_primary
    → matches (rule_of r) s (some hour) hour ≡ true
    → (t : TimeTag) × IsIn t (times_of tags) × IsOpenAt t hour
unfolding freq_reminder
rule_open tags s hour (primary own r e g) given n f h =
    let same = some-injective _ _ (sym e ∙ given) in
    let (t, i, o) = generated_open s hour g (λ nothing. n (sym (ap times_of same) ∙ nothing)) h in
    (t, subst (λ (ts : List Tag). IsIn t (times_of ts)) same i, o)
rule_open tags s hour (reminder own r e f) given n g h =
    let same = some-injective _ _ (sym e ∙ given) in
    absurd (
      cc
        (sym f ∙ ap (λ (ts : List Tag). freq_reminder (frequency_of ts)) same ∙ ap freq_reminder g))

-- If a manifest has a time tag and no reminder, its rules match only at an hour, in UTC, that lies in
-- a window of one of its time tags.
pub rules_in_hours :
    (m : Tagged) (tags : List Tag) (g : GeneratedRule) (s : Signal) (hour : ℕ)
    → m.audience_tags ≡ some tags
    → times_of tags ≢ []
    → frequency_of tags ≡ freq_primary
    → IsIn g (generate_rules_for_manifest m)
    → matches (rule_of g) s (some hour) hour ≡ true
    → (t : TimeTag) × IsIn t (times_of tags) × IsOpenAt t hour
rules_in_hours m tags g s hour given timely once i h =
    rule_open tags s hour
      (All-IsIn (IsRuleOf m) g (generate_rules_for_manifest m) (generate-All m) i) given timely once
      h
