-- ===== src/Decision/Policy/Sorting.antt =====
-- The order of the rules after sorting: what is in it, and that priorities fall.
use adaptive_advertisement.Common.{
  ◌≤◌, ◌≡◌, ◌⊎◌, inl, inr, Bool, Bool-cases, List, [], ◌∷◌, arith, leb, leb→le, filter, All, IsIn,
  filter-IsIn, All-IsIn, IsIn-All,
}
use native.Mathlib.Nat.{le_trans}
use adaptive_advertisement.Decision.Policy.{Rule, insert_rule, sort_rules}

-- Falling priority.
abbrev pub IsFalling : List Rule → Type 0
IsFalling [] = Unit
IsFalling (r ∷ rs) = All (λ x. x.priority ≤ r.priority) rs × IsFalling rs

insert_rule-IsIn : (x r : Rule) (rs : List Rule) → IsIn x (insert_rule r rs) → (x ≡ r) ⊎ IsIn x rs
unfolding insert_rule
insert_rule-IsIn x r [] (inl e) = inl e
insert_rule-IsIn x r [] (inr i) = elim i [ ]
insert_rule-IsIn x r (s ∷ rs) h = elim (Bool-cases (leb s.priority r.priority)) [
  | inl first ↦ rw first at h
  | inr later ↦ elim (rw later at h) as (λ _. (x ≡ r) ⊎ IsIn x (s ∷ rs)) [
    | inl e ↦ inr (inl e)
    | inr i ↦ elim (insert_rule-IsIn x r rs i) as (λ _. (x ≡ r) ⊎ IsIn x (s ∷ rs)) [
      | inl e ↦ inl e
      | inr j ↦ inr (inr j)
    ]
  ]
]

place_later :
    (x r s : Rule) (rs : List Rule)
    → ((x ≡ r) ⊎ IsIn x rs → IsIn x (insert_rule r rs))
    → (x ≡ r) ⊎ IsIn x (s ∷ rs)
    → IsIn x (s ∷ insert_rule r rs)
place_later x r s rs deeper (inl e) = inr (deeper (inl e))
place_later x r s rs deeper (inr (inl e)) = inl e
place_later x r s rs deeper (inr (inr j)) = inr (deeper (inr j))

IsIn-insert_rule : (x r : Rule) (rs : List Rule) → (x ≡ r) ⊎ IsIn x rs → IsIn x (insert_rule r rs)
unfolding insert_rule
IsIn-insert_rule x r [] h = h
IsIn-insert_rule x r (s ∷ rs) h = elim (Bool-cases (leb s.priority r.priority)) [
  | inl first ↦ rw first h
  | inr later ↦ rw later (place_later x r s rs (IsIn-insert_rule x r rs) h)
]

pub sort_rules-IsIn : (x : Rule) (rs : List Rule) → IsIn x (sort_rules rs) → IsIn x rs
unfolding sort_rules
sort_rules-IsIn x [] h = elim h [ ]
sort_rules-IsIn x (r ∷ rs) h =
    elim (insert_rule-IsIn x r (sort_rules rs) h) as (λ _. IsIn x (r ∷ rs)) [
      | inl e ↦ inl e
      | inr i ↦ inr (sort_rules-IsIn x rs i)
    ]

pub IsIn-sort_rules : (x : Rule) (rs : List Rule) → IsIn x rs → IsIn x (sort_rules rs)
unfolding sort_rules
IsIn-sort_rules x [] h = elim h [ ]
IsIn-sort_rules x (r ∷ rs) (inl e) = IsIn-insert_rule x r (sort_rules rs) (inl e)
IsIn-sort_rules x (r ∷ rs) (inr i) =
    IsIn-insert_rule x r (sort_rules rs) (inr (IsIn-sort_rules x rs i))

insert-IsFalling : (r : Rule) (rs : List Rule) → IsFalling rs → IsFalling (insert_rule r rs)
unfolding insert_rule
insert-IsFalling r [] f = (tt, tt)
insert-IsFalling r (s ∷ rs) f = elim (Bool-cases (leb s.priority r.priority)) [
  | inl first ↦ rw first (
    (
      leb→le _ _ first,
      IsIn-All _ rs
          (λ x i. le_trans (All-IsIn (λ y. y.priority ≤ s.priority) x rs f.0 i) (leb→le _ _ first)),
    ),
    f,
  )
  | inr later ↦ rw later (
    IsIn-All _ (insert_rule r rs) (λ x i.
        elim (insert_rule-IsIn x r rs i) as (λ _. x.priority ≤ s.priority) [
          | inl e ↦ rw e (ground arith)
          | inr j ↦ All-IsIn (λ y. y.priority ≤ s.priority) x rs f.0 j
        ]),
    insert-IsFalling r rs f.1,
  )
]

pub sort-IsFalling : (rs : List Rule) → IsFalling (sort_rules rs)
unfolding sort_rules
sort-IsFalling [] = tt
sort-IsFalling (r ∷ rs) = insert-IsFalling r (sort_rules rs) (sort-IsFalling rs)

pub filter-IsFalling : (p : Rule → Bool) (rs : List Rule) → IsFalling rs → IsFalling (filter p rs)
filter-IsFalling p [] f = tt
filter-IsFalling p (r ∷ rs) f = elim (Bool-cases (p r)) [
  | inl kept ↦ rw kept (
    IsIn-All _ (filter p rs)
        (λ x i. All-IsIn (λ y. y.priority ≤ r.priority) x rs f.0 (filter-IsIn p x rs i).0),
    filter-IsFalling p rs f.1,
  )
  | inr gone ↦ rw gone (filter-IsFalling p rs f.1)
]
