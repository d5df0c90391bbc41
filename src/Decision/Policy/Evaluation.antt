-- ===== src/Decision/Policy/Evaluation.antt =====
-- Which manifest an engine selects.
use adaptive_advertisement.Common.{
  ℕ, zero, suc, ◌≤◌, String, ◌≡◌, refl, subst, ◌≢◌, ◌↔◌, inl, inr, Bool, true, false, Bool-cases,
  none, some, List, [], ◌∷◌, arith, ◌==◌, filter, map, sum, IsIn, filter-IsIn, IsIn-filter,
  All-IsIn,
}
use adaptive_advertisement.Common.Outcome.{Outcome, ok, raised, ◌>>=◌}
use adaptive_advertisement.Decision.Signal.{Signal}
use native.Mathlib.Nat.{le_trans}
use adaptive_advertisement.Decision.Policy.{
  Rule, PolicyConfig, matches, sort_rules, new_engine, nth, choices, choose_from, select, evaluate,
}
use adaptive_advertisement.Decision.Policy.Sorting.{
  IsFalling, sort_rules-IsIn, IsIn-sort_rules, sort-IsFalling, filter-IsFalling,
}

nth-IsIn : (rs : List Rule) (i : ℕ) (r : Rule) → nth rs i ≡ ok r → IsIn r rs
unfolding nth
nth-IsIn [] i r h = cc
nth-IsIn (x ∷ xs) zero r h = inl (ground arith)
nth-IsIn (x ∷ xs) (suc i) r h = inr (nth-IsIn xs i r h)

choices-IsIn :
    (draw : List ℕ → ℕ) (tier : List Rule) (r : Rule) → choices draw tier ≡ ok r → IsIn r tier
unfolding choices
choices-IsIn draw tier r h = elim (Bool-cases (sum (map (λ (x : Rule). x.weight) tier) == 0)) [
  | inl none_left ↦ cc (rw none_left at h)
  | inr some_left ↦ nth-IsIn tier _ r (rw some_left at h)
]

choose_from-IsIn :
    (draw : List ℕ → ℕ) (tier : List Rule) (r : Rule) → choose_from draw tier ≡ ok r → IsIn r tier
unfolding choose_from
choose_from-IsIn draw [] r h = choices-IsIn draw [] r h
choose_from-IsIn draw (x ∷ []) r h = inl (ground arith)
choose_from-IsIn draw (x ∷ y ∷ ys) r h = choices-IsIn draw (x ∷ y ∷ ys) r h

bound_manifest :
    (o : Outcome Rule) (m : String)
    → (o >>= λ r. ok (some r.manifest_id)) ≡ ok (some m)
    → (r : Rule) × (o ≡ ok r) × (r.manifest_id ≡ m)
bound_manifest (ok r) m h = (r, refl, ground arith)
bound_manifest (raised e) m h = cc

select_top :
    (draw : List ℕ → ℕ) (rs : List Rule) (m : String)
    → IsFalling rs
    → select draw rs ≡ ok (some m)
    → (r : Rule) × IsIn r rs
      × (r.manifest_id ≡ m)
      × ((x : Rule) → IsIn x rs → x.priority ≤ r.priority)
unfolding select
select_top draw [] m f h = cc
select_top draw (top ∷ rest) m f h =
    let (r, e, name) =
      bound_manifest
        (choose_from draw (filter (λ (x : Rule). x.priority == top.priority) (top ∷ rest))) m h in
    let (i, level) =
      filter-IsIn (λ (x : Rule). x.priority == top.priority) r (top ∷ rest)
        (choose_from-IsIn draw _ r e) in
    (
      r,
      i,
      name,
      λ x j. elim j as (λ _. x.priority ≤ r.priority) [
        | inl same ↦ rw same (ground arith)
        | inr k ↦ le_trans (All-IsIn (λ y. y.priority ≤ top.priority) x rest f.0 k) (ground arith)
      ],
    )

-- What an engine shows comes from a rule of its configuration that matches the signal, and no
-- matching rule has a higher priority, whatever the order of the rules in the file is and whatever
-- the random draw gives.
pub evaluate_top :
    (draw : List ℕ → ℕ) (hour : ℕ) (c : PolicyConfig) (s : Signal) (m : String)
    → evaluate draw hour (new_engine c) s ≡ ok (some m)
    → (r : Rule) × IsIn r c.rules
      × (r.manifest_id ≡ m)
      × (matches r s (some hour) hour ≡ true)
      × ((x : Rule)
          → IsIn x c.rules
          → matches x s (some hour) hour ≡ true
          → x.priority ≤ r.priority)
unfolding evaluate new_engine
evaluate_top draw hour c s m h =
    let p : Rule → Bool = λ r. matches r s (some hour) hour in
    let (r, i, name, above) =
      select_top draw (filter p (sort_rules c.rules)) m
        (filter-IsFalling p (sort_rules c.rules) (sort-IsFalling c.rules)) h in
    let (j, good) = filter-IsIn p r (sort_rules c.rules) i in
    (
      r,
      sort_rules-IsIn r c.rules j,
      name,
      good,
      λ x k g. above x (IsIn-filter p x (sort_rules c.rules) (IsIn-sort_rules x c.rules k) g),
    )

bound_none : (o : Outcome Rule) → (o >>= λ r. ok (some r.manifest_id)) ≢ ok none
bound_none (ok r) h = cc
bound_none (raised e) h = cc

select-none : (draw : List ℕ → ℕ) (rs : List Rule) → (select draw rs ≡ ok none) ↔ (rs ≡ [])
unfolding select
select-none draw [] = (λ h. refl, λ h. refl)
select-none draw (r ∷ rs) = (
  λ h.
      absurd (
        bound_none (choose_from draw (filter (λ (x : Rule). x.priority == r.priority) (r ∷ rs))) h),
  λ h. cc,
)

none_in_nil :
    {A : Type 0} (p : A → Bool) (x : A) (xs : List A) → filter p xs ≡ [] → IsIn x xs → p x ≡ false
none_in_nil {A} p x xs e i = elim (Bool-cases (p x)) [
  | inl good ↦ absurd (subst (IsIn x) e (IsIn-filter p x xs i good))
  | inr bad ↦ bad
]

nil_of_none :
    {A : Type 0} (p : A → Bool) (xs : List A)
    → ((x : A) → IsIn x xs → p x ≡ false)
    → filter p xs ≡ []
nil_of_none p [] h = refl
nil_of_none p (x ∷ xs) h = rw (h x (inl refl)) (nil_of_none p xs (λ y i. h y (inr i)))

-- An engine gives no manifest exactly when no rule of its configuration matches.
pub evaluate-none_iff :
    (draw : List ℕ → ℕ) (hour : ℕ) (c : PolicyConfig) (s : Signal)
    → (evaluate draw hour (new_engine c) s ≡ ok none)
      ↔ ((r : Rule) → IsIn r c.rules → matches r s (some hour) hour ≡ false)
unfolding evaluate new_engine
evaluate-none_iff draw hour c s =
    let p : Rule → Bool = λ r. matches r s (some hour) hour in
    (
      λ h r i.
          none_in_nil p r (sort_rules c.rules)
            ((select-none draw (filter p (sort_rules c.rules))).0 h) (IsIn-sort_rules r c.rules i),
      λ h.
          (select-none draw (filter p (sort_rules c.rules))).1
            (nil_of_none p (sort_rules c.rules) (λ r i. h r (sort_rules-IsIn r c.rules i))),
    )
