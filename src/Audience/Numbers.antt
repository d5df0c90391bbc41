-- ===== src/Audience/Numbers.antt =====
-- The arithmetic of services/audience-state/audience_state/observation_store.py. A fraction is a
-- natural number of units, `scale` of which make 0.0001: what `round(x, 4)` keeps are the multiples
-- of `scale`. The error of binary floating point is left out.
use adaptive_advertisement.Common.{
  ℕ, ◌+◌, ◌*◌, ◌/◌, ◌%◌, Option, none, some, List, [], ◌∷◌, sum, length, ltb, ◌==◌, if◌then◌else◌,
}

-- `round(a / n)` for `n > 0`: to the nearest, a tie to the even one.
unfoldable pub round_div : (a n : ℕ) → ℕ
round_div a n =
    if ltb (2 * (a % n)) n
    then a / n
    else if ltb n (2 * (a % n))
    then a / n + 1
    else if (a / n) % 2 == 0
    then a / n
    else a / n + 1

-- `round(sum(xs) / len(xs))`
unfoldable pub mean : List ℕ → ℕ
unfolding round_div
mean xs = round_div (sum xs) (length xs)

-- `round(sum(xs) / len(xs), 4)`
unfoldable pub mean4 : (scale : ℕ) → List ℕ → ℕ
unfolding round_div
mean4 scale xs = scale * round_div (sum xs) (length xs * scale)

-- `if any(v is None for v in values)`: all the values, or none.
unfoldable pub present_all : List (Option ℕ) → Option (List ℕ)
present_all [] = some []
present_all (none ∷ os) = none
present_all (some v ∷ os) = elim (present_all os) [ none ↦ none | some vs ↦ some (v ∷ vs) ]

-- `[v for v in values if v is not None]`
unfoldable pub present_only : List (Option ℕ) → List ℕ
present_only [] = []
present_only (none ∷ os) = present_only os
present_only (some v ∷ os) = v ∷ present_only os
