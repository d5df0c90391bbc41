-- ===== src/Audience/Window/Recent.antt =====
-- What the window holds: the observations of the last `window_ms`.
use adaptive_advertisement.Common.{
  ℕ, ◌+◌, ◌≤◌, ◌≡◌, refl, ap, sym, ◌∙◌, inl, inr, Bool, true, Bool-cases, List, [], ◌∷◌, ◌++◌,
  arith, leb, filter, any,
}
use mathlib.Core.List.{append-nil, append_assoc}
use adaptive_advertisement.Audience.Window.{
  Observation, Stored, ObservationWindow, is_recent, prune, add, degraded,
}

filter-append :
    (p : Stored → Bool) (xs ys : List Stored) → filter p (xs ++ ys) ≡ filter p xs ++ filter p ys
filter-append p [] ys = refl
filter-append p (x ∷ xs) ys = elim (Bool-cases (p x)) [
  | inl e ↦ rw (e, filter-append p xs ys) refl
  | inr e ↦ rw (e, filter-append p xs ys) refl
]

-- What is recent later was recent before.
filter_pruned :
    (window now later : ℕ) (xs : List Stored)
    → now ≤ later
    → filter (is_recent window later) (filter (is_recent window now) xs)
      ≡ filter (is_recent window later) xs
filter_pruned window now later [] h = refl
filter_pruned window now later (x ∷ xs) h =
    let rest = filter_pruned window now later xs h in
    elim (Bool-cases (leb now (x.received_at + window))) [
      | inl e ↦ rw (e, rest) refl
      | inr e ↦ ground (arith, rest)
    ]

-- Pruning twice is pruning at the later time.
pub prune-prune :
    (now later : ℕ) (w : ObservationWindow)
    → now ≤ later
    → (prune later (prune now w)).observations ≡ (prune later w).observations
unfolding prune
prune-prune now later w h = filter_pruned w.window_ms now later w.observations h

-- A degraded observation that is still there later was there before.
pub degraded_before :
    (window later : ℕ) (xs : List Stored)
    → any degraded (filter (is_recent window later) xs) ≡ true
    → any degraded xs ≡ true
degraded_before window later [] h = h
degraded_before window later (x ∷ xs) h = ground (arith, degraded_before window later xs)

-- An arrival: the clock and the observation.
abbrev pub Arrival : Type 0
Arrival = ℕ × Observation

unfoldable pub add_all : ObservationWindow → List Arrival → ObservationWindow
unfolding add
add_all w [] = w
add_all w ((now, o) ∷ rest) = add_all (add now o w) rest

abbrev pub stored_all : List Arrival → List Stored
stored_all [] = []
stored_all ((now, o) ∷ rest) = record { data_of = o; received_at = now } ∷ stored_all rest

-- The clock does not go back.
abbrev pub IsAscending : (first : ℕ) → List Arrival → (last : ℕ) → Type 0
IsAscending first [] last = first ≤ last
IsAscending first ((now, o) ∷ rest) last = (first ≤ now) × IsAscending now rest last

last_after :
    (first : ℕ) (arrivals : List Arrival) (last : ℕ)
    → IsAscending first arrivals last
    → first ≤ last
last_after first [] last h = h
last_after first ((now, o) ∷ rest) last (h, hs) = omega (arith, h, last_after now rest last hs)

add_pruned :
    (now last : ℕ) (o : Observation) (w : ObservationWindow)
    → now ≤ last
    → filter (is_recent w.window_ms last) (add now o w).observations
      ≡ filter (is_recent w.window_ms last) w.observations
        ++ filter (is_recent w.window_ms last) (record { data_of = o; received_at = now } ∷ [])
unfolding add prune
add_pruned now last o w h =
    filter-append (is_recent w.window_ms last) (filter (is_recent w.window_ms now) w.observations)
      (record { data_of = o; received_at = now } ∷ [])
    ∙ ap
        (λ xs.
          xs
          ++ filter (is_recent w.window_ms last) (record { data_of = o; received_at = now } ∷ []))
        (filter_pruned w.window_ms now last w.observations h)

-- With a clock that does not go back, after any arrivals the pruned window holds exactly what was
-- there or arrived and is not older than `window_ms`, in the order of arrival: pruning at each
-- arrival loses nothing that is recent at the end.
pub window_exact :
    (w : ObservationWindow) (arrivals : List Arrival) (first last : ℕ)
    → IsAscending first arrivals last
    → (prune last (add_all w arrivals)).observations
      ≡ filter (is_recent w.window_ms last) (w.observations ++ stored_all arrivals)
unfolding prune add_all add
window_exact w [] first last h =
    ap (filter (is_recent w.window_ms last)) (sym (append-nil w.observations))
window_exact w ((now, o) ∷ rest) first last (h, hs) =
    let p = is_recent w.window_ms last in
    let x : List Stored = record { data_of = o; received_at = now } ∷ [] in
    window_exact (add now o w) rest now last hs
    ∙ filter-append p (add now o w).observations (stored_all rest)
    ∙ ap (λ xs. xs ++ filter p (stored_all rest))
        (add_pruned now last o w (last_after now rest last hs))
    ∙ append_assoc (filter p w.observations) (filter p x) (filter p (stored_all rest))
    ∙ ap (λ xs. filter p w.observations ++ xs) (sym (filter-append p x (stored_all rest)))
    ∙ sym (filter-append p w.observations (x ++ stored_all rest))
