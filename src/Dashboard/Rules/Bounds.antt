-- ===== src/Dashboard/Rules/Bounds.antt =====
-- Merged thresholds.
use adaptive_advertisement.Common.{
  ℕ, ◌≤◌, ◌≡◌, refl, ◌↔◌, ◌⊎◌, inl, inr, Option, none, some, arith, max,
}
use mathlib.Core.Option.{some-injective}
use adaptive_advertisement.Dashboard.Rules.{merge_value}

-- A threshold, if it is set, has the property.
abbrev pub Bound : (ℕ → Type 0) → Option ℕ → Type 0
Bound P o = (t : ℕ) → o ≡ some t → P t

pub merged_parts :
    (P : ℕ → Type 0) (x y : Option ℕ)
    → ((i j : ℕ) → P (max i j) → P i × P j)
    → Bound P (merge_value x y)
    → Bound P x × Bound P y
unfolding merge_value
merged_parts P none y down h = (λ t e. cc, h)
merged_parts P (some i) none down h = (h, λ t e. cc)
merged_parts P (some i) (some j) down h = (
  λ t e. rw (← some-injective _ _ e) (down i j (h (max i j) refl)).0,
  λ t e. rw (← some-injective _ _ e) (down i j (h (max i j) refl)).1,
)

pub merged_whole :
    (P : ℕ → Type 0) (x y : Option ℕ)
    → ((i j : ℕ) → P i → P j → P (max i j))
    → Bound P x
    → Bound P y
    → Bound P (merge_value x y)
unfolding merge_value
merged_whole P none y up h k t e = k t e
merged_whole P (some i) none up h k t e = h t e
merged_whole P (some i) (some j) up h k t e =
    rw (← some-injective _ _ e) (up i j (h i refl) (k j refl))

pub max_down : (v i j : ℕ) → max i j ≤ v → (i ≤ v) × (j ≤ v)
max_down v i j h = ground arith

pub max_up : (v i j : ℕ) → i ≤ v → j ≤ v → max i j ≤ v
max_up v i j h k = ground arith

-- A threshold that only one of the two sets stays as it is.
pub merged_one :
    (P : ℕ → Type 0) (x y : Option ℕ)
    → (x ≡ none) ⊎ (y ≡ none)
    → Bound P (merge_value x y) ↔ (Bound P x × Bound P y)
unfolding merge_value
merged_one P none y only = (λ h. (λ t e. cc, h), λ h. h.1)
merged_one P (some i) none only = (λ h. (h, λ t e. cc), λ h. h.0)
merged_one P (some i) (some j) (inl e) = cc
merged_one P (some i) (some j) (inr e) = cc
