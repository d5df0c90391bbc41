-- ===== src/Decision/Policy.antt =====
-- services/decision-optimizer/decision_optimizer/policy.py: rules over the audience signal.
-- Thresholds are in the unit of the signal's fractions. A check that a rule leaves out is `none`.
pub mod Matching
pub mod Sorting
pub mod Evaluation
pub mod Loading
pub mod Totality
use adaptive_advertisement.Common.{
  ℕ, zero, suc, String, Bool, true, false, not, ◌&&◌, Option, none, some, List, [], ◌∷◌, map, leb,
  ltb, ◌==◌, if◌then◌else◌, any, all, filter, is_some, sum, str_eq,
}
use adaptive_advertisement.Common.Outcome.{Outcome, ok, raised, value_error, key_error, ◌>>=◌}
use adaptive_advertisement.Decision.Signal.{
  Bin, child, young_adult, adult, senior, male, female, formal, business_casual, casual, athletic,
  outdoor_technical, workwear_uniform, streetwear, luxury_premium, lounge_comfort, smart_occasion,
  Presence, Signal, is_suppressed, share,
}

pub record Conditions : Type 0 where
  pub presence_count_gte : Option ℕ
  pub presence_count_lte : Option ℕ
  pub presence_count_eq : Option ℕ
  pub presence_confidence_gte : Option ℕ
  -- the sixteen fields from `age_group_child_gte` to `attire_smart_occasion_gte`
  pub demographic_gte : Bin → Option ℕ
  pub demographics_suppressed_eq : Option Bool
  pub attention_engaged_gte : Option ℕ
  pub time_hour_gte : Option ℕ
  pub time_hour_lte : Option ℕ

-- The source has the conditions as fields of the rule itself.
pub record Rule : Type 0 where
  pub rule_id : String
  pub priority : ℕ
  pub manifest_id : String
  pub weight : ℕ
  pub conditions : Conditions
  pub open conditions use *

-- `_DEMOGRAPHIC_CONDITION_FIELDS`
abbrev pub demographic_fields : List Bin
demographic_fields =
    child ∷ young_adult ∷ adult ∷ senior ∷ male ∷ female ∷ formal ∷ business_casual ∷ casual
    ∷ athletic ∷ outdoor_technical ∷ workwear_uniform ∷ streetwear ∷ luxury_premium ∷ lounge_comfort
    ∷ smart_occasion ∷ []

unfoldable pub has_demographic_condition : Rule → Bool
has_demographic_condition r = any (λ b. is_some (r.demographic_gte b)) demographic_fields

-- A bound that is not set passes.
abbrev pub at_least : Option ℕ → ℕ → Bool
at_least none v = true
at_least (some t) v = not (ltb v t)

abbrev pub at_most : Option ℕ → ℕ → Bool
at_most none v = true
at_most (some t) v = not (ltb t v)

abbrev pub equal_to : Option ℕ → ℕ → Bool
equal_to none v = true
equal_to (some t) v = v == t

unfoldable pub presence_ok : Rule → Presence → Bool
presence_ok r p =
    at_least r.presence_count_gte p.count
    && (at_most r.presence_count_lte p.count
        && (equal_to r.presence_count_eq p.count
            && at_least r.presence_confidence_gte p.confidence))

-- A missing block, or a block without the value, passes.
unfoldable pub attention_ok : Rule → Signal → Bool
attention_ok r s = elim s.attention [
  | none ↦ true
  | some a ↦ elim a.engaged [ none ↦ true | some v ↦ at_least r.attention_engaged_gte v ]
]

same_bool : Bool → Bool → Bool
same_bool true b = b
same_bool false b = not b

unfoldable pub suppressed_ok : Rule → Signal → Bool
unfolding same_bool
suppressed_ok r s = elim r.demographics_suppressed_eq [
  | none ↦ true
  | some b ↦ same_bool (is_suppressed s) b
]

-- The privacy guard comes before the bins are compared.
unfoldable pub demographics_ok : Rule → Signal → Bool
demographics_ok r s =
    if has_demographic_condition r
    then if is_suppressed s
      then false
      else all (λ b. at_least (r.demographic_gte b) (share s b)) demographic_fields
    else true

-- `now_hour` is none for the -1 of the default argument.
hour_of : Option ℕ → ℕ → ℕ
hour_of none utc_hour = utc_hour
hour_of (some h) utc_hour = h

unfoldable pub time_ok : Rule → Option ℕ → ℕ → Bool
unfolding hour_of
time_ok r now_hour utc_hour =
    let hour = hour_of now_hour utc_hour in
    at_least r.time_hour_gte hour && at_most r.time_hour_lte hour

-- A signal without presence is malformed.
unfoldable pub matches : Rule → Signal → Option ℕ → ℕ → Bool
matches r s now_hour utc_hour = elim s.presence [
  | none ↦ false
  | some p ↦
      presence_ok r p
      && (attention_ok r s
          && (suppressed_ok r s && (demographics_ok r s && time_ok r now_hour utc_hour)))
]

pub record PolicyConfig : Type 0 where
  pub rules : List Rule
  pub min_dwell_ms : ℕ
  pub cooldown_ms : ℕ

pub record PolicyEngine : Type 0 where
  pub config : PolicyConfig
  pub rules : List Rule

-- `sorted(rules, key=priority, reverse=True)`: falling priority, equal ones in the order of the file.
unfoldable pub insert_rule : Rule → List Rule → List Rule
insert_rule r [] = r ∷ []
insert_rule r (s ∷ rs) =
    let rest = insert_rule r rs in if leb s.priority r.priority then r ∷ s ∷ rs else s ∷ rest

unfoldable pub sort_rules : List Rule → List Rule
sort_rules [] = []
sort_rules (r ∷ rs) = insert_rule r (sort_rules rs)

unfoldable pub new_engine : PolicyConfig → PolicyEngine
new_engine c = record { config = c; rules = sort_rules c.rules }

nth : List Rule → ℕ → Outcome Rule
nth [] i = raised value_error
nth (r ∷ rs) zero = ok r
nth (r ∷ rs) (suc i) = nth rs i

-- `random.choices(tier, weights=…, k=1)[0]`: `draw` gives the place; without any weight Python
-- raises a ValueError.
unfoldable pub choices : (List ℕ → ℕ) → List Rule → Outcome Rule
unfolding nth
choices draw tier =
    let weights = map (λ (r : Rule). r.weight) tier in
    if sum weights == 0 then raised value_error else nth tier (draw weights)

-- A tier of one rule is not drawn from.
unfoldable pub choose_from : (List ℕ → ℕ) → List Rule → Outcome Rule
choose_from draw (r ∷ []) = ok r
choose_from draw tier = choices draw tier

-- `matching` is in falling order of priority, so its first rule has the top priority.
unfoldable pub select : (List ℕ → ℕ) → List Rule → Outcome (Option String)
select draw [] = ok none
select draw (top ∷ rest) =
    choose_from draw (filter (λ (r : Rule). r.priority == top.priority) (top ∷ rest)) >>= λ r.
    ok (some r.manifest_id)

unfoldable pub evaluate : (List ℕ → ℕ) → ℕ → PolicyEngine → Signal → Outcome (Option String)
evaluate draw hour e s = select draw (filter (λ r. matches r s (some hour) hour) e.rules)

-- One rule of the file.
pub record RawRule : Type 0 where
  pub rule_id : Option String
  pub priority : Option ℕ
  pub manifest_id : Option String
  pub weight : Option ℕ
  pub conditions : Conditions

pub record RulesFile : Type 0 where
  pub schema_version : Option String
  pub rules : List RawRule
  pub min_dwell_ms : Option ℕ
  pub cooldown_ms : Option ℕ

required : Option String → Outcome String
required none = raised key_error
required (some s) = ok s

or_default : ℕ → Option ℕ → ℕ
or_default d none = d
or_default d (some v) = v

read_rule : RawRule → Outcome Rule
unfolding required or_default
read_rule raw = required raw.rule_id >>= λ id. required raw.manifest_id >>= λ manifest. ok (record {
  rule_id = id;
  priority = or_default 0 raw.priority;
  manifest_id = manifest;
  weight = or_default 1_000 raw.weight;
  conditions = raw.conditions;
})

read_rules : List RawRule → Outcome (List Rule)
unfolding read_rule
read_rules [] = ok []
read_rules (raw ∷ raws) = read_rule raw >>= λ r. read_rules raws >>= λ rs. ok (r ∷ rs)

unfoldable pub is_empty {ℓ} : {A : Type ℓ} → List A → Bool
is_empty [] = true
is_empty (x ∷ xs) = false

has_version : Option String → Bool
has_version none = false
has_version (some v) = str_eq v "1.0.0"

-- Weights are thousandths: 1.0 is 1000.
unfoldable pub load_policy : RulesFile → Outcome PolicyEngine
unfolding read_rules is_empty has_version or_default
load_policy f =
    if not (has_version f.schema_version)
    then raised value_error
    else if is_empty f.rules
    then raised value_error
    else read_rules f.rules >>= λ rules. ok (
        new_engine (record {
          rules = rules;
          min_dwell_ms = or_default 10_000 f.min_dwell_ms;
          cooldown_ms = or_default 5_000 f.cooldown_ms;
        }))
