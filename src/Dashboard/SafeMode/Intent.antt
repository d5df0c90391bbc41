-- ===== src/Dashboard/SafeMode/Intent.antt =====
-- The intent over a sequence of requests.
use adaptive_advertisement.Common.{
  ℕ, String, ◌≡◌, true, false, Option, none, some, List, [], ◌∷◌, arith,
}
use adaptive_advertisement.Dashboard.SafeMode.{
  Store, SafeModeInfo, created_row, get_or_create_safe_mode, info, get_safe_mode, engage_safe_mode,
  clear_safe_mode,
}

pub data Operation : Type 0 where
  engage : (now : ℕ) (reason activated_by : String) → Operation
  clear : (now : ℕ) (cleared_by : String) → Operation
  read : (now : ℕ) → Operation

unfoldable pub apply : Operation → Store → Store
apply (engage now why by) s = (engage_safe_mode now why by s).1
apply (clear now by) s = (clear_safe_mode now by s).1
apply (read now) s = (get_safe_mode now s).1

unfoldable pub apply_all : List Operation → Store → Store
apply_all [] s = s
apply_all (o ∷ os) s = apply_all os (apply o s)

-- What the operator wants: nothing, or safe mode for a reason since a time.
abbrev pub Wish : Type 0
Wish = Option (String × ℕ)

abbrev pub wish_after : Operation → Wish → Wish
wish_after (engage now why by) none = some (why, now)
wish_after (engage now why by) (some w) = some w
wish_after (clear now by) w = none
wish_after (read now) w = w

abbrev pub wish_after_all : List Operation → Wish → Wish
wish_after_all [] w = w
wish_after_all (o ∷ os) w = wish_after_all os (wish_after o w)

abbrev pub answer : Wish → SafeModeInfo
answer none = record { active = false; reason = none; activated_at = none }
answer (some (why, since)) = record { active = true; reason = some why; activated_at = some since }

-- The row, if there is one, holds the wish.
abbrev pub Holds : Wish → Store → Type 0
Holds w s = (now : ℕ) → info (get_or_create_safe_mode now s) ≡ answer w

apply-Holds :
    (o : Operation) (w : Wish) (s : Store) → Holds w s → Holds (wish_after o w) (apply o s)
unfolding apply engage_safe_mode clear_safe_mode get_safe_mode get_or_create_safe_mode info
apply-Holds (engage now why by) none s h t = ground (arith, h now, h t)
apply-Holds (engage now why by) (some (x, y)) s h t = ground (arith, h now, h t)
apply-Holds (clear now by) none s h t = ground (arith, h now, h t)
apply-Holds (clear now by) (some (x, y)) s h t = ground (arith, h now, h t)
apply-Holds (read now) w s h t = h now

pub apply_all-Holds :
    (os : List Operation) (w : Wish) (s : Store)
    → Holds w s
    → Holds (wish_after_all os w) (apply_all os s)
unfolding apply_all
apply_all-Holds [] w s h = h
apply_all-Holds (o ∷ os) w s h =
    apply_all-Holds os (wish_after o w) (apply o s) (apply-Holds o w s h)

-- After every sequence of requests, GET answers what the operator wants: safe mode with the reason and
-- the time of the first engagement since the last clearing, or no safe mode.
pub safe_mode_intent :
    (os : List Operation) (now : ℕ) (s : Store)
    → s.row ≡ none
    → (get_safe_mode now (apply_all os s)).0 ≡ answer (wish_after_all os none)
unfolding get_safe_mode info get_or_create_safe_mode
safe_mode_intent os now s fresh = apply_all-Holds os none s (λ t. rw (fresh, created_row)) now
