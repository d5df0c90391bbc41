-- ===== src/Dashboard/Rules/Gate.antt =====
-- The attention gate of the generated rules.
use adaptive_advertisement.Common.{
  ℕ, ◌<◌, ◌≡◌, refl, inl, inr, true, Option-cases, Option, none, some, List, arith, IsIn, All-IsIn,
}
use adaptive_advertisement.Decision.Signal.{Bin, Signal, Attention}
use adaptive_advertisement.Decision.Policy.{Conditions, matches}
use adaptive_advertisement.Decision.Policy.Matching.{matches_iff}
use adaptive_advertisement.Dashboard.Tags.{
  AudienceTag, attract, general, attention_gate_threshold, is_gate_excluded, present,
  audience_conditions, Slot,
}
use adaptive_advertisement.Dashboard.Rules.{
  Tagged, GeneratedRule, inject_attention_gate, restrict, plain_rule, timed_rule, presence_rule,
  cross_conditions, cross_rule,
}
use adaptive_advertisement.Dashboard.Rules.Generate.{build_rules, reminder_rule, safety_fallback}
use adaptive_advertisement.Dashboard.Rules.Generate.Origins.{
  IsGenerated, plain, timed, present_in, crossed, crossed_in, IsRuleOf, primary, reminder,
}
use adaptive_advertisement.Dashboard.Rules.Built.{IsBuilt, of_manifest, safety, build-All}
use adaptive_advertisement.Dashboard.Rules.Synced.{rule_of}

-- A condition on demographics stands beside the gate.
abbrev pub IsGated : Conditions → Type 0
IsGated c =
    (b : Bin) (t : ℕ)
    → c.demographic_gte b ≡ some t
    → c.attention_engaged_gte ≡ some attention_gate_threshold

inject-IsGated : (a : AudienceTag) → IsGated (inject_attention_gate (audience_conditions a) a)
unfolding inject_attention_gate is_gate_excluded audience_conditions
inject-IsGated attract b t h = cc
inject-IsGated general b t h = cc
inject-IsGated _ b t h = refl

restrict-IsGated : (slot : Option Slot) (c : Conditions) → IsGated c → IsGated (restrict slot c)
unfolding restrict
restrict-IsGated none c h = h
restrict-IsGated (some s) c h = h

present-IsGated : (n k : ℕ) → IsGated (present n k)
present-IsGated n k b t h = cc

cross-IsGated : (slot : Option Slot) (x y : AudienceTag) → IsGated (cross_conditions slot x y)
unfolding cross_conditions
cross-IsGated slot x y = restrict-IsGated slot _ (λ b t h. refl)

generated-IsGated :
    {id : _} {bonus : ℕ} {tags : List _} {times : List _} {r : GeneratedRule}
    → IsGenerated id bonus tags times r
    → IsGated r.conditions
unfolding plain_rule timed_rule presence_rule cross_rule
generated-IsGated (plain a i e) = inject-IsGated a
generated-IsGated (timed a t idx slot i j s) = restrict-IsGated slot _ (inject-IsGated a)
generated-IsGated (present_in t idx slot i s) = restrict-IsGated slot _ (present-IsGated 1 6_000)
generated-IsGated (crossed a b d e) = cross-IsGated none a b
generated-IsGated (crossed_in a b t idx slot d i s) = cross-IsGated slot a b

rule-IsGated : {m : Tagged} {r : GeneratedRule} → IsRuleOf m r → IsGated r.conditions
unfolding reminder_rule
rule-IsGated (primary tags r e g) = generated-IsGated g
rule-IsGated (reminder tags r e f) = present-IsGated 1 6_000

built-IsGated : {ms : List Tagged} {r : GeneratedRule} → IsBuilt ms r → IsGated r.conditions
unfolding safety_fallback
built-IsGated (of_manifest m r idx i g) = rule-IsGated g
built-IsGated safety = λ b t h. cc

-- While the signal says that the share of people who look at the display is below 0.35, no rule with
-- a condition on demographics matches: a generated rule that matches then has none.
pub unengaged_untargeted :
    (ms : List Tagged) (g : GeneratedRule) (s : Signal) (hour v : ℕ) (a : Attention)
    → IsIn g (build_rules ms)
    → s.attention ≡ some a
    → a.engaged ≡ some v
    → v < attention_gate_threshold
    → matches (rule_of g) s (some hour) hour ≡ true
    → (b : Bin) → g.conditions.demographic_gte b ≡ none
unengaged_untargeted ms g s hour v a i seen engaged low good b =
    elim (Option-cases (g.conditions.demographic_gte b)) [
      | inl e ↦ e
      | inr (t, e) ↦
          let gate =
            built-IsGated (All-IsIn (IsBuilt ms) g (build_rules ms) (build-All ms) i) b t e in
          let q = (matches_iff (rule_of g) s hour).0 good in
          absurd (omega (arith, q.attention a v seen engaged attention_gate_threshold gate))
    ]
