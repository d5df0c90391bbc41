-- ===== src/Decision/Policy/Loading.antt =====
-- What `load_policy` makes of a file in which no key is missing.
use adaptive_advertisement.Common.{ℕ, ◌≡◌, refl, ◌≢◌, some, List, [], ◌∷◌, map}
use adaptive_advertisement.Common.Outcome.{ok}
use adaptive_advertisement.Decision.Policy.{
  Rule, RawRule, RulesFile, read_rule, read_rules, required, or_default, is_empty, has_version,
  new_engine, load_policy,
}

abbrev pub raw_of : Rule → RawRule
raw_of r = record {
  rule_id = some r.rule_id;
  priority = some r.priority;
  manifest_id = some r.manifest_id;
  weight = some r.weight;
  conditions = r.conditions;
}

read_rules-map : (rs : List Rule) → read_rules (map raw_of rs) ≡ ok rs
unfolding read_rules read_rule required or_default
read_rules-map [] = refl
read_rules-map (r ∷ rs) = rw (read_rules-map rs)

-- The file of some rules, with every key.
abbrev pub full_file : List Rule → (min_dwell_ms cooldown_ms : ℕ) → RulesFile
full_file rs min_dwell_ms cooldown_ms = record {
  schema_version = some "1.0.0";
  rules = map raw_of rs;
  min_dwell_ms = some min_dwell_ms;
  cooldown_ms = some cooldown_ms;
}

pub load-full :
    (rs : List Rule) (d c : ℕ)
    → rs ≢ []
    → load_policy (full_file rs d c)
      ≡ ok (new_engine (record { rules = rs; min_dwell_ms = d; cooldown_ms = c }))
unfolding load_policy has_version is_empty or_default
load-full [] d c h = absurd (h refl)
load-full (r ∷ rs) d c h = rw (read_rules-map (r ∷ rs))
