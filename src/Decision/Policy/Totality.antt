-- ===== src/Decision/Policy/Totality.antt =====
-- When an evaluation gives a manifest.
use adaptive_advertisement.Common.{
  ℕ, zero, suc, ◌<◌, String, ◌≡◌, refl, inl, Bool, true, false, some, List, [], ◌∷◌, map, arith,
  ◌==◌, length, length-map, filter, filter-IsIn, IsIn, IsIn-filter, sum,
}
use adaptive_advertisement.Common.Outcome.{Outcome, ok, ◌>>=◌}
use adaptive_advertisement.Decision.Signal.{Signal}
use adaptive_advertisement.Decision.Policy.{
  Rule, PolicyConfig, matches, sort_rules, new_engine, nth, choices, choose_from, select, evaluate,
}
use adaptive_advertisement.Decision.Policy.Sorting.{sort_rules-IsIn, IsIn-sort_rules}

-- `random.choices` gives a member of its list.
abbrev pub DrawsInRange : (List ℕ → ℕ) → Type 0
DrawsInRange draw = (weights : List ℕ) → 0 < length weights → draw weights < length weights

nth_ok : (rs : List Rule) (i : ℕ) → i < length rs → (r : Rule) × (nth rs i ≡ ok r)
unfolding nth
nth_ok [] i h = absurd (omega arith)
nth_ok (r ∷ rs) zero h = (r, refl)
nth_ok (r ∷ rs) (suc i) h = nth_ok rs i (omega arith)

-- Every rule can be drawn.
abbrev pub IsWeighted : List Rule → Type 0
IsWeighted rs = (r : Rule) → IsIn r rs → 0 < r.weight

abbrev weights_of : List Rule → List ℕ
weights_of = map (λ (r : Rule). r.weight)

sum_positive :
    (r : Rule) (rs : List Rule) → IsWeighted (r ∷ rs) → (sum (weights_of (r ∷ rs)) == 0) ≡ false
sum_positive r rs w = ground (arith, w r (inl refl))

choices_ok :
    (draw : List ℕ → ℕ) (r : Rule) (rs : List Rule)
    → DrawsInRange draw
    → IsWeighted (r ∷ rs)
    → (x : Rule) × (choices draw (r ∷ rs) ≡ ok x)
unfolding choices
choices_ok draw r rs d w = rw (sum_positive r rs w) (
    nth_ok (r ∷ rs) (draw (weights_of (r ∷ rs))) (
      omega (
        arith,
        d (weights_of (r ∷ rs)) (omega arith),
        length-map (λ (x : Rule). x.weight) (r ∷ rs),
      )))

choose_from_ok :
    (draw : List ℕ → ℕ) (rs : List Rule)
    → DrawsInRange draw
    → IsWeighted rs
    → 0 < length rs
    → (x : Rule) × (choose_from draw rs ≡ ok x)
unfolding choose_from
choose_from_ok draw [] d w h = absurd (omega arith)
choose_from_ok draw (r ∷ []) d w h = (r, refl)
choose_from_ok draw (r ∷ s ∷ rs) d w h = choices_ok draw r (s ∷ rs) d w

bound_ok :
    (o : Outcome Rule) (r : Rule)
    → o ≡ ok r
    → (o >>= λ x. ok (some x.manifest_id)) ≡ ok (some r.manifest_id)
bound_ok o r e = rw e

select_ok :
    (draw : List ℕ → ℕ) (r : Rule) (rs : List Rule)
    → DrawsInRange draw
    → IsWeighted (r ∷ rs)
    → (m : String) × (select draw (r ∷ rs) ≡ ok (some m))
unfolding select
select_ok draw r rs d w =
    let tier = filter (λ (x : Rule). x.priority == r.priority) (r ∷ rs) in
    let (x, e) =
      choose_from_ok draw tier d
        (λ y i. w y (filter-IsIn (λ (x : Rule). x.priority == r.priority) y (r ∷ rs) i).0)
        (ground arith) in
    (x.manifest_id, bound_ok (choose_from draw tier) x e)

select_in :
    (draw : List ℕ → ℕ) (x : Rule) (rs : List Rule)
    → DrawsInRange draw
    → IsWeighted rs
    → IsIn x rs
    → (m : String) × (select draw rs ≡ ok (some m))
select_in draw x [] d w i = elim i [ ]
select_in draw x (r ∷ rs) d w i = select_ok draw r rs d w

-- If a rule matches, and every rule can be drawn, the engine gives a manifest.
pub evaluate_total :
    (draw : List ℕ → ℕ) (hour : ℕ) (c : PolicyConfig) (s : Signal) (r : Rule)
    → DrawsInRange draw
    → IsWeighted c.rules
    → IsIn r c.rules
    → matches r s (some hour) hour ≡ true
    → (m : String) × (evaluate draw hour (new_engine c) s ≡ ok (some m))
unfolding evaluate new_engine
evaluate_total draw hour c s r d w i good =
    let p : Rule → Bool = λ x. matches x s (some hour) hour in
    select_in draw r (filter p (sort_rules c.rules)) d
      (λ x j. w x (sort_rules-IsIn x c.rules (filter-IsIn p x (sort_rules c.rules) j).0))
      (IsIn-filter p r (sort_rules c.rules) (IsIn-sort_rules r c.rules i) good)
