-- ===== src/Supervisor/Health/Recent.antt =====
-- Lists of times filtered by how recent they are.
use adaptive_advertisement.Common.{
  ℕ, ◌+◌, ◌≤◌, ◌≡◌, refl, inl, inr, Bool, Bool-cases, List, [], ◌∷◌, ◌++◌, arith, leb, length,
  filter,
}
use adaptive_advertisement.Supervisor.Service.{is_recent}

pub filter-append :
    (p : ℕ → Bool) (xs ys : List ℕ) → filter p (xs ++ ys) ≡ filter p xs ++ filter p ys
filter-append p [] ys = refl
filter-append p (x ∷ xs) ys = elim (Bool-cases (p x)) [
  | inl e ↦ rw (e, filter-append p xs ys) refl
  | inr e ↦ rw (e, filter-append p xs ys) refl
]

-- What is recent later was recent before.
pub filter_pruned :
    (window now later : ℕ) (xs : List ℕ)
    → now ≤ later
    → filter (is_recent window later) (filter (is_recent window now) xs)
      ≡ filter (is_recent window later) xs
filter_pruned window now later [] h = refl
filter_pruned window now later (x ∷ xs) h =
    let rest = filter_pruned window now later xs h in
    elim (Bool-cases (leb now (x + window))) [
      | inl e ↦ rw (e, rest) refl
      | inr e ↦ ground (arith, rest)
    ]

pub length_recent_le :
    (window now later : ℕ) (xs : List ℕ)
    → now ≤ later
    → length (filter (is_recent window later) xs) ≤ length (filter (is_recent window now) xs)
length_recent_le window now later [] h = omega arith
length_recent_le window now later (x ∷ xs) h =
    ground (arith, length_recent_le window now later xs h)

pub length_one : (p : ℕ → Bool) (x : ℕ) → length (filter p (x ∷ [])) ≤ 1
length_one p x = ground arith
