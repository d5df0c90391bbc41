-- ===== src/Dashboard/Rules/Built.antt =====
-- The rules of a file: those of the manifests, and the fallback where it is needed.
use adaptive_advertisement.Common.{
  ℕ, ◌+◌, ◌≡◌, refl, inl, inr, Bool, true, Bool-cases, some, List, [], ◌∷◌, ◌++◌, any, All,
  All-append, IsIn,
}
use adaptive_advertisement.Dashboard.Rules.{Tagged, GeneratedRule}
use adaptive_advertisement.Dashboard.Rules.Generate.{
  is_unconditional, numbered, all_rules, fallback_target, safety_fallback, has_fallback,
  build_rules, generate_rules_for_manifest,
}
use adaptive_advertisement.Dashboard.Rules.Generate.Origins.{IsRuleOf, generate-All}

pub data IsBuilt (ms : List Tagged) : GeneratedRule → Type 0 where
  of_manifest :
      (m : Tagged) (r : GeneratedRule) (idx : ℕ)
      → IsIn m ms
      → IsRuleOf m r
      → IsBuilt ms (record r { tiebreak_index = some idx })
  safety : IsBuilt ms (safety_fallback (fallback_target ms))

numbered-All :
    (ms : List Tagged) (m : Tagged) (idx : ℕ) (rs : List GeneratedRule)
    → IsIn m ms
    → All (IsRuleOf m) rs
    → All (IsBuilt ms) (numbered idx rs)
unfolding numbered
numbered-All ms m idx [] i h = tt
numbered-All ms m idx (r ∷ rs) i h = (of_manifest m r idx i h.0, numbered-All ms m idx rs i h.1)

all_rules-All :
    (ms : List Tagged) (idx : ℕ) (given : List Tagged)
    → ((m : Tagged) → IsIn m given → IsIn m ms)
    → All (IsBuilt ms) (all_rules idx given)
unfolding all_rules
all_rules-All ms idx [] sub = tt
all_rules-All ms idx (m ∷ given) sub =
    All-append (IsBuilt ms) (numbered idx (generate_rules_for_manifest m)) _
      (numbered-All ms m idx (generate_rules_for_manifest m) (sub m (inl refl)) (generate-All m))
      (all_rules-All ms (idx + 1) given (λ x i. sub x (inr i)))

pub build-All : (ms : List Tagged) → All (IsBuilt ms) (build_rules ms)
unfolding build_rules
build-All ms = elim (Bool-cases (has_fallback (all_rules 0 ms))) [
  | inl there ↦ rw there (all_rules-All ms 0 ms (λ m i. i))
  | inr missing ↦
      rw missing
        (All-append (IsBuilt ms) (all_rules 0 ms) _ (all_rules-All ms 0 ms (λ m i. i)) (safety, tt))
]

any_witness :
    {A : Type 0} (p : A → Bool) (xs : List A) → any p xs ≡ true → (x : A) × IsIn x xs × (p x ≡ true)
any_witness p [] h = cc
any_witness {A} p (x ∷ xs) h = elim (Bool-cases (p x)) [
  | inl good ↦ (x, inl refl, good)
  | inr bad ↦ let (y, i, q) = any_witness p xs (rw bad at h) in (y, inr i, q)
]

IsIn-append_last : {A : Type 0} (x : A) (xs : List A) → IsIn x (xs ++ x ∷ [])
IsIn-append_last x [] = inl refl
IsIn-append_last x (y ∷ ys) = inr (IsIn-append_last x ys)

-- The file always has a rule without conditions.
pub build_fallback :
    (ms : List Tagged)
    → (r : GeneratedRule) × IsIn r (build_rules ms) × (is_unconditional r.conditions ≡ true)
unfolding build_rules has_fallback safety_fallback is_unconditional
build_fallback ms = elim (Bool-cases (has_fallback (all_rules 0 ms))) [
  | inl there ↦
      rw there (any_witness (λ (r : GeneratedRule). is_unconditional r.conditions) _ there)
  | inr missing ↦
      rw missing (safety_fallback (fallback_target ms), IsIn-append_last _ (all_rules 0 ms), refl)
]
