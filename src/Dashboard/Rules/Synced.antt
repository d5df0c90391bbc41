-- ===== src/Dashboard/Rules/Synced.antt =====
-- What the decision engine does with a generated file.
use adaptive_advertisement.Common.{
  ℕ, ◌<◌, String, ◌≡◌, refl, sym, ap, ◌∙◌, ◌≢◌, ◌⊎◌, inl, inr, true, some, List, [], ◌∷◌, map,
  arith, IsIn, All-IsIn,
}
use adaptive_advertisement.Common.Outcome.{ok}
use adaptive_advertisement.Decision.Signal.{Signal, Presence}
use adaptive_advertisement.Decision.Policy.{
  Rule, PolicyConfig, PolicyEngine, new_engine, matches, evaluate, load_policy,
}
use adaptive_advertisement.Decision.Policy.Matching.{matches_iff, all_fields}
use adaptive_advertisement.Decision.Policy.Evaluation.{evaluate_top}
use adaptive_advertisement.Decision.Policy.Loading.{raw_of, load-full}
use adaptive_advertisement.Decision.Policy.Totality.{DrawsInRange, IsWeighted, evaluate_total}
use adaptive_advertisement.Dashboard.Tags.{
  FrequencyTag, Reminder, freq_primary, freq_recurring, freq_ambient, freq_reminder,
}
use adaptive_advertisement.Dashboard.Rules.{
  Tagged, GeneratedRule, plain_rule, timed_rule, presence_rule, cross_rule,
}
use adaptive_advertisement.Dashboard.Rules.Generate.{
  is_none, is_unconditional, fallback_target, safety_fallback, build_rules, written,
  build_rules_file, reminder_rule,
}
use adaptive_advertisement.Dashboard.Rules.Generate.Origins.{
  IsGenerated, plain, timed, present_in, crossed, crossed_in, IsRuleOf, primary, reminder,
}
use adaptive_advertisement.Dashboard.Rules.Built.{
  IsBuilt, of_manifest, safety, build-All, build_fallback,
}

-- The engine's rule of a generated one.
abbrev pub rule_of : GeneratedRule → Rule
rule_of g = record {
  rule_id = g.rule_id;
  priority = g.priority;
  manifest_id = g.manifest_id;
  weight = g.weight;
  conditions = g.conditions;
}

map-written : (gs : List GeneratedRule) → map written gs ≡ map raw_of (map rule_of gs)
unfolding written
map-written [] = refl
map-written (g ∷ gs) = rw (map-written gs)

map-IsIn :
    {A B : Type 0} (f : A → B) (y : B) (xs : List A)
    → IsIn y (map f xs)
    → (x : A) × IsIn x xs × (y ≡ f x)
map-IsIn f y [] i = elim i [ ]
map-IsIn f y (x ∷ xs) (inl e) = (x, inl refl, e)
map-IsIn f y (x ∷ xs) (inr i) = let (z, j, e) = map-IsIn f y xs i in (z, inr j, e)

pub IsIn-map : {A B : Type 0} (f : A → B) (x : A) (xs : List A) → IsIn x xs → IsIn (f x) (map f xs)
IsIn-map f x (y ∷ ys) (inl e) = inl (ap f e)
IsIn-map f x (y ∷ ys) (inr i) = inr (IsIn-map f x ys i)
IsIn-map f x [] i = elim i [ ]

abbrev pub config_of : (min_dwell_ms cooldown_ms : ℕ) → List Tagged → PolicyConfig
config_of d c ms = record {
  rules = map rule_of (build_rules ms);
  min_dwell_ms = d;
  cooldown_ms = c;
}

not_nil_of_IsIn : {A : Type 0} (x : A) (xs : List A) → IsIn x xs → xs ≢ []
not_nil_of_IsIn x [] i = absurd i
not_nil_of_IsIn x (y ∷ ys) i = cc

pub load-build :
    (d c : ℕ) (ms : List Tagged)
    → load_policy (build_rules_file d c ms) ≡ ok (new_engine (config_of d c ms))
unfolding build_rules_file
load-build d c ms =
    let (r, i, e) = build_fallback ms in
    rw (map-written (build_rules ms)) (
      load-full (map rule_of (build_rules ms)) d c
        (not_nil_of_IsIn (rule_of r) _ (IsIn-map rule_of r (build_rules ms) i)))

weighted_reminder : (f : FrequencyTag) (r : Reminder) → freq_reminder f ≡ some r → 0 < r.weight
unfolding freq_reminder
weighted_reminder freq_primary r e = cc
weighted_reminder freq_recurring r e = ground arith
weighted_reminder freq_ambient r e = ground arith

abbrev IsSound : List Tagged → GeneratedRule → Type 0
IsSound ms r =
    (0 < r.weight)
    × (IsIn r.manifest_id (map (λ (m : Tagged). m.manifest_id) ms)
        ⊎ ((ms ≡ []) × (r.manifest_id ≡ "manifest-attract")))

generated-IsSound :
    {id : String} {bonus : ℕ} {tags : List _} {times : List _} {r : GeneratedRule}
    → IsGenerated id bonus tags times r
    → (0 < r.weight) × (r.manifest_id ≡ id)
unfolding plain_rule timed_rule presence_rule cross_rule
generated-IsSound (plain a i e) = (omega arith, refl)
generated-IsSound (timed a t idx slot i j s) = (omega arith, refl)
generated-IsSound (present_in t idx slot i s) = (omega arith, refl)
generated-IsSound (crossed a b d e) = (omega arith, refl)
generated-IsSound (crossed_in a b t idx slot d i s) = (omega arith, refl)

rule-IsSound :
    {m : Tagged} {r : GeneratedRule}
    → IsRuleOf m r
    → (0 < r.weight) × (r.manifest_id ≡ m.manifest_id)
unfolding reminder_rule
rule-IsSound (primary tags r e g) = generated-IsSound g
rule-IsSound (reminder tags r e f) = (weighted_reminder _ r f, refl)

safety-IsSound : (ms : List Tagged) → IsSound ms (safety_fallback (fallback_target ms))
unfolding safety_fallback fallback_target
safety-IsSound [] = (omega arith, inr (refl, refl))
safety-IsSound (m ∷ ms) = (omega arith, inl (inl refl))

built-IsSound : {ms : List Tagged} {r : GeneratedRule} → IsBuilt ms r → IsSound ms r
built-IsSound {ms} (of_manifest m r idx i g) =
    let (w, e) = rule-IsSound g in (w, inl (rw e (IsIn-map (λ (x : Tagged). x.manifest_id) m ms i)))
built-IsSound {ms} safety = safety-IsSound ms

rules-IsWeighted : (ms : List Tagged) → IsWeighted (map rule_of (build_rules ms))
rules-IsWeighted ms r i =
    let (g, j, e) = map-IsIn rule_of r (build_rules ms) i in
    rw e (built-IsSound (All-IsIn (IsBuilt ms) g (build_rules ms) (build-All ms) j)).0

-- A rule without conditions matches every signal with presence.
unconditional-matches :
    (r : Rule) (s : Signal) (hour : ℕ) (p : Presence)
    → is_unconditional r.conditions ≡ true
    → s.presence ≡ some p
    → matches r s (some hour) hour ≡ true
unfolding is_unconditional is_none
unconditional-matches r s hour p h e = (matches_iff r s hour).1 (record {
  presence = p;
  seen = e;
  count_gte = λ t f. absurd (ground arith);
  count_lte = λ t f. absurd (ground arith);
  count_eq = λ t f. absurd (ground arith);
  confidence = λ t f. absurd (ground arith);
  attention = λ a v f g t k. absurd (ground arith);
  suppression = λ b f. absurd (ground arith);
  demographics = λ b t f.
      absurd (ground (arith, all_fields (λ i. is_none (r.demographic_gte i)) (ground arith) b));
  from_hour = λ t f. absurd (ground arith);
  to_hour = λ t f. absurd (ground arith);
})

-- After a synchronisation of the rules, the engine gives a manifest at every hour for every signal
-- with presence, whatever the tags of the manifests are, if `random.choices` gives a member of its
-- list. The manifest is an enabled one, or the stub when none is enabled.
pub synced_never_blank :
    (draw : List ℕ → ℕ) (hour d c : ℕ) (ms : List Tagged) (s : Signal) (p : Presence)
    → DrawsInRange draw
    → s.presence ≡ some p
    → (e : PolicyEngine) × (load_policy (build_rules_file d c ms) ≡ ok e)
      × (m : String) × (evaluate draw hour e s ≡ ok (some m))
      × (IsIn m (map (λ (t : Tagged). t.manifest_id) ms) ⊎ ((ms ≡ []) × (m ≡ "manifest-attract")))
synced_never_blank draw hour d c ms s p in_range seen =
    let (g, i, free) = build_fallback ms in
    let (m, shown) =
      evaluate_total draw hour (config_of d c ms) s (rule_of g) in_range (rules-IsWeighted ms)
        (IsIn-map rule_of g (build_rules ms) i)
        (unconditional-matches (rule_of g) s hour p free seen) in
    let (r, j, name, q, top) = evaluate_top draw hour (config_of d c ms) s m shown in
    let (h, k, e) = map-IsIn rule_of r (build_rules ms) j in
    (
      new_engine (config_of d c ms),
      load-build d c ms,
      m,
      shown,
      rw (← (sym (ap (λ (x : Rule). x.manifest_id) e) ∙ name))
          (built-IsSound (All-IsIn (IsBuilt ms) h (build_rules ms) (build-All ms) k)).1,
    )
