-- ===== src/Common/Lists.antt =====
-- Lists measured and indexed by native numbers, and filtered by Boolean tests.
use Prim.Native.Nat.{ℕ, zero, suc, ◌+◌, ◌-◌, ◌≤◌}
use mathlib.Core.Path.{◌≡◌, refl, sym, ap, ◌∙◌}
use mathlib.Core.Logic.{◌⊎◌, inl, inr}
use mathlib.Core.Bool.{Bool, true, false, ◌||◌, ◌&&◌}
use mathlib.Core.List.{List, [], ◌∷◌, ◌++◌, map}
use mathlib.Core.Option.{Option, none, some}
use native.Mathlib.Omega.{arith}
use adaptive_advertisement.Common.Tests.{if◌then◌else◌, Bool-cases}

module _ {ℓ} {A : Type ℓ} where
  abbrev pub length : List A → ℕ
  length [] = 0
  length (x ∷ xs) = suc (length xs)

  abbrev pub drop : ℕ → List A → List A
  drop zero xs = xs
  drop (suc n) [] = []
  drop (suc n) (x ∷ xs) = drop n xs

  abbrev pub take : ℕ → List A → List A
  take zero xs = []
  take (suc n) [] = []
  take (suc n) (x ∷ xs) = x ∷ take n xs

  abbrev pub last? : List A → Option A
  last? [] = none
  last? (x ∷ []) = some x
  last? (x ∷ y ∷ ys) = last? (y ∷ ys)

  -- the comprehension `[x for x in xs if p(x)]`
  abbrev pub filter : (A → Bool) → List A → List A
  filter p [] = []
  filter p (x ∷ xs) = let rest = filter p xs in if p x then x ∷ rest else rest

  -- `any(p(x) for x in xs)`
  abbrev pub any : (A → Bool) → List A → Bool
  any p [] = false
  any p (x ∷ xs) = p x || any p xs

  -- `all(p(x) for x in xs)`
  abbrev pub all : (A → Bool) → List A → Bool
  all p [] = true
  all p (x ∷ xs) = p x && all p xs

  -- Every element has the property.
  abbrev pub All {κ} : (A → Type κ) → List A → Type κ
  All P [] = Unit
  All P (x ∷ xs) = P x × All P xs

  pub length-append : (xs ys : List A) → length (xs ++ ys) ≡ length xs + length ys
  length-append [] ys = omega arith
  length-append (x ∷ xs) ys = omega (arith, length-append xs ys)

  pub length-drop : (n : ℕ) (xs : List A) → length (drop n xs) ≡ length xs - n
  length-drop zero xs = omega arith
  length-drop (suc n) [] = omega arith
  length-drop (suc n) (x ∷ xs) = omega (arith, length-drop n xs)

  pub length-filter-le : (p : A → Bool) (xs : List A) → length (filter p xs) ≤ length xs
  length-filter-le p [] = omega arith
  length-filter-le p (x ∷ xs) = ground (arith, length-filter-le p xs)

  pub drop-append : (n : ℕ) (xs ys : List A) → n ≤ length xs → drop n (xs ++ ys) ≡ drop n xs ++ ys
  drop-append zero xs ys h = refl
  drop-append (suc n) [] ys h = absurd (omega arith)
  drop-append (suc n) (x ∷ xs) ys h = drop-append n xs ys (omega arith)

  pub All-append {κ} : (P : A → Type κ) (xs ys : List A) → All P xs → All P ys → All P (xs ++ ys)
  All-append P [] ys h k = k
  All-append P (x ∷ xs) ys h k = (h.0, All-append P xs ys h.1 k)

  pub All-drop {κ} : (P : A → Type κ) (n : ℕ) (xs : List A) → All P xs → All P (drop n xs)
  All-drop P zero xs h = h
  All-drop P (suc n) [] h = h
  All-drop P (suc n) (x ∷ xs) h = All-drop P n xs h.1

  -- What a filter keeps passes its test.
  pub All-filter : (p : A → Bool) (xs : List A) → All (λ x. p x ≡ true) (filter p xs)
  All-filter p [] = tt
  All-filter p (x ∷ xs) = ground (arith, All-filter p xs)

pub length-map {ℓ κ} :
    {A : Type ℓ} {B : Type κ} (f : A → B) (xs : List A) → length (map f xs) ≡ length xs
length-map f [] = refl
length-map f (x ∷ xs) = ap suc (length-map f xs)

-- `sum(xs)`
abbrev pub sum : List ℕ → ℕ
sum [] = 0
sum (x ∷ xs) = x + sum xs

-- `x in xs`, with the place.
abbrev pub IsIn : {A : Type 0} → A → List A → Type 0
IsIn x [] = ⊥
IsIn x (y ∷ ys) = (x ≡ y) ⊎ IsIn x ys

module _ {A : Type 0} where
  pub filter-IsIn :
      (p : A → Bool) (x : A) (xs : List A) → IsIn x (filter p xs) → IsIn x xs × (p x ≡ true)
  filter-IsIn p x [] h = absurd h
  filter-IsIn p x (y ∷ ys) h = elim (Bool-cases (p y)) [
    | inl good ↦ elim (rw good at h) as (λ _. IsIn x (y ∷ ys) × (p x ≡ true)) [
      | inl e ↦ (inl e, rw e good)
      | inr later ↦ let (i, q) = filter-IsIn p x ys later in (inr i, q)
    ]
    | inr bad ↦ let (i, q) = filter-IsIn p x ys (rw bad at h) in (inr i, q)
  ]

  pub IsIn-filter :
      (p : A → Bool) (x : A) (xs : List A) → IsIn x xs → p x ≡ true → IsIn x (filter p xs)
  IsIn-filter p x [] h q = elim h [ ]
  IsIn-filter p x (y ∷ ys) (inl e) q = rw (sym (ap p e) ∙ q) (inl e)
  IsIn-filter p x (y ∷ ys) (inr later) q = elim (Bool-cases (p y)) [
    | inl good ↦ rw good (inr (IsIn-filter p x ys later q))
    | inr bad ↦ rw bad (IsIn-filter p x ys later q)
  ]

  pub All-IsIn {κ} : (P : A → Type κ) (x : A) (xs : List A) → All P xs → IsIn x xs → P x
  All-IsIn P x [] h i = elim i [ ]
  All-IsIn P x (y ∷ ys) h (inl e) = rw e h.0
  All-IsIn P x (y ∷ ys) h (inr later) = All-IsIn P x ys h.1 later

  pub IsIn-All {κ} : (P : A → Type κ) (xs : List A) → ((x : A) → IsIn x xs → P x) → All P xs
  IsIn-All P [] h = tt
  IsIn-All P (x ∷ xs) h = (h x (inl refl), IsIn-All P xs (λ y i. h y (inr i)))
