-- ===== src/Decision/Policy/Matching.antt =====
-- What it means that a rule matches.
use adaptive_advertisement.Common.{
  ℕ, ◌≤◌, ◌≡◌, refl, ◌↔◌, inl, inr, Bool, true, false, ◌&&◌, Bool-cases, Option-cases, Option, none,
  some, List, [], ◌∷◌, arith, any, all, is_some,
}
use adaptive_advertisement.Decision.Signal.{
  Attention, Bin, child, Presence, Signal, is_suppressed, share,
}
use adaptive_advertisement.Decision.Policy.{
  Rule, demographic_fields, has_demographic_condition, at_least, at_most, equal_to, presence_ok,
  attention_ok, same_bool, suppressed_ok, demographics_ok, hour_of, time_ok, matches,
}

-- A lower and an upper bound, if set, hold.
abbrev pub IsAtLeast : Option ℕ → ℕ → Type 0
IsAtLeast o v = (t : ℕ) → o ≡ some t → t ≤ v

abbrev pub IsAtMost : Option ℕ → ℕ → Type 0
IsAtMost o v = (t : ℕ) → o ≡ some t → v ≤ t

at_least_iff : (o : Option ℕ) (v : ℕ) → (at_least o v ≡ true) ↔ IsAtLeast o v
at_least_iff none v = (λ h t e. cc, λ h. refl)
at_least_iff (some t) v = (λ h u e. ground arith, λ h. ground (arith, h t refl))

at_most_iff : (o : Option ℕ) (v : ℕ) → (at_most o v ≡ true) ↔ IsAtMost o v
at_most_iff none v = (λ h t e. cc, λ h. refl)
at_most_iff (some t) v = (λ h u e. ground arith, λ h. ground (arith, h t refl))

pub all_fields : (p : Bin → Bool) → all p demographic_fields ≡ true → (b : Bin) → p b ≡ true
all_fields p h child = ground arith
all_fields p h _ = ground arith

fields_all : (p : Bin → Bool) → ((b : Bin) → p b ≡ true) → all p demographic_fields ≡ true
fields_all p h = all_true p demographic_fields h
  where
    all_true : (p : Bin → Bool) (bs : List Bin) → ((b : Bin) → p b ≡ true) → all p bs ≡ true
    all_true p [] h = refl
    all_true p (b ∷ bs) h = rw (h b) (all_true p bs h)

-- A rule's conditions, one by one, at a UTC hour.
pub record Satisfies (r : Rule) (s : Signal) (hour : ℕ) : Type 0 where
  pub presence : Presence
  pub seen : s.presence ≡ some presence
  pub count_gte : IsAtLeast r.presence_count_gte presence.count
  pub count_lte : IsAtMost r.presence_count_lte presence.count
  pub count_eq : (t : ℕ) → r.presence_count_eq ≡ some t → presence.count ≡ t
  pub confidence : IsAtLeast r.presence_confidence_gte presence.confidence
  pub attention :
      (a : Attention) (v : ℕ)
      → s.attention ≡ some a
      → a.engaged ≡ some v
      → IsAtLeast r.attention_engaged_gte v
  pub suppression : (b : Bool) → r.demographics_suppressed_eq ≡ some b → is_suppressed s ≡ b
  pub demographics :
      (b : Bin) (t : ℕ) → r.demographic_gte b ≡ some t → (is_suppressed s ≡ false) × (t ≤ share s b)
  pub from_hour : IsAtLeast r.time_hour_gte hour
  pub to_hour : IsAtMost r.time_hour_lte hour

equal_to_iff : (o : Option ℕ) (v : ℕ) → (equal_to o v ≡ true) ↔ ((t : ℕ) → o ≡ some t → v ≡ t)
equal_to_iff none v = (λ h t e. cc, λ h. refl)
equal_to_iff (some t) v = (λ h u e. ground arith, λ h. ground (arith, h t refl))

attention_sound :
    (r : Rule) (s : Signal)
    → attention_ok r s ≡ true
    → (a : Attention) (v : ℕ) → s.attention ≡ some a
    → a.engaged ≡ some v
    → at_least r.attention_engaged_gte v ≡ true
unfolding attention_ok
attention_sound r s h a v e f = ground arith

attention_complete :
    (r : Rule) (s : Signal)
    → ((a : Attention) (v : ℕ)
        → s.attention ≡ some a
        → a.engaged ≡ some v
        → at_least r.attention_engaged_gte v ≡ true)
    → attention_ok r s ≡ true
unfolding attention_ok
attention_complete r s h = elim (Option-cases s.attention) [
  | inl e ↦ rw (e, attention_ok)
  | inr (a, e) ↦ elim (Option-cases a.engaged) [
    | inl f ↦ ground arith
    | inr (v, f) ↦ ground (arith, h a v e f)
  ]
]

suppressed_iff :
    (r : Rule) (s : Signal)
    → (suppressed_ok r s ≡ true)
      ↔ ((b : Bool) → r.demographics_suppressed_eq ≡ some b → is_suppressed s ≡ b)
unfolding suppressed_ok same_bool
suppressed_iff r s = (
  λ h b e. ground arith,
  λ h. elim (Option-cases r.demographics_suppressed_eq) [
    | inl e ↦ rw (e, suppressed_ok)
    | inr (b, e) ↦ ground (arith, h b e)
  ],
)

no_field :
    (r : Rule)
    → has_demographic_condition r ≡ false
    → (b : Bin) → is_some (r.demographic_gte b) ≡ false
unfolding has_demographic_condition
no_field r h child = ground arith
no_field r h _ = ground arith

demographics_sound :
    (r : Rule) (s : Signal)
    → demographics_ok r s ≡ true
    → (b : Bin) (t : ℕ) → r.demographic_gte b ≡ some t
    → (is_suppressed s ≡ false) × (t ≤ share s b)
unfolding demographics_ok
demographics_sound r s h b t e = elim (Bool-cases (has_demographic_condition r)) [
  | inr lacks ↦ absurd (ground (arith, no_field r lacks b))
  | inl has ↦ elim (Bool-cases (is_suppressed s)) [
    | inl hidden ↦ cc (rw (has, hidden) at h)
    | inr clear ↦ (
      clear,
      (at_least_iff (r.demographic_gte b) (share s b)).0
          (all_fields (λ c. at_least (r.demographic_gte c) (share s c)) (rw (has, clear) at h) b) t
          e,
    )
  ]
]

any_none : (p : Bin → Bool) (bs : List Bin) → ((b : Bin) → p b ≡ false) → any p bs ≡ false
any_none p [] h = refl
any_none p (b ∷ bs) h = rw (h b) (any_none p bs h)

-- If no bin's condition may be set, the rule has none.
unconditional :
    (r : Rule)
    → ((b : Bin) (t : ℕ) → ¬ (r.demographic_gte b ≡ some t))
    → has_demographic_condition r ≡ false
unfolding has_demographic_condition
unconditional r h =
    any_none (λ b. is_some (r.demographic_gte b)) demographic_fields
      λ b. elim (Option-cases (r.demographic_gte b)) [
        | inl e ↦ rw e
        | inr (t, e) ↦ absurd (h b t e)
      ]

demographics_complete :
    (r : Rule) (s : Signal)
    → ((b : Bin) (t : ℕ)
        → r.demographic_gte b ≡ some t
        → (is_suppressed s ≡ false) × (t ≤ share s b))
    → demographics_ok r s ≡ true
unfolding demographics_ok
demographics_complete r s h = elim (Bool-cases (is_suppressed s)) [
  | inl hidden ↦ rw (unconditional r (λ b t e. cc (hidden, (h b t e).0)))
  | inr clear ↦ elim (Bool-cases (has_demographic_condition r)) [
    | inr lacks ↦ rw lacks
    | inl has ↦
        rw (has, clear)
          (fields_all (λ b. at_least (r.demographic_gte b) (share s b))
            (λ b. (at_least_iff (r.demographic_gte b) (share s b)).1 (λ t e. (h b t e).1)))
  ]
]

-- The five tests of a signal with presence.
abbrev tests : Rule → Signal → ℕ → Presence → Bool
tests r s hour p =
    presence_ok r p
    && (attention_ok r s
        && (suppressed_ok r s && (demographics_ok r s && time_ok r (some hour) hour)))

sound_at :
    (r : Rule) (s : Signal) (hour : ℕ) (p : Presence)
    → s.presence ≡ some p
    → tests r s hour p ≡ true
    → Satisfies r s hour
unfolding presence_ok time_ok hour_of
sound_at r s hour p e h = record {
  presence = p;
  seen = e;
  count_gte = (at_least_iff r.presence_count_gte p.count).0 (ground arith);
  count_lte = (at_most_iff r.presence_count_lte p.count).0 (ground arith);
  count_eq = (equal_to_iff r.presence_count_eq p.count).0 (ground arith);
  confidence = (at_least_iff r.presence_confidence_gte p.confidence).0 (ground arith);
  attention = λ a v f g.
      (at_least_iff r.attention_engaged_gte v).0 (attention_sound r s (ground arith) a v f g);
  suppression = (suppressed_iff r s).0 (ground arith);
  demographics = demographics_sound r s (ground arith);
  from_hour = (at_least_iff r.time_hour_gte hour).0 (ground arith);
  to_hour = (at_most_iff r.time_hour_lte hour).0 (ground arith);
}

complete_at :
    (r : Rule) (s : Signal) (hour : ℕ) → (q : Satisfies r s hour) → tests r s hour q.presence ≡ true
unfolding presence_ok time_ok hour_of
complete_at r s hour q = rw (
  (at_least_iff r.presence_count_gte q.presence.count).1 q.count_gte,
  (at_most_iff r.presence_count_lte q.presence.count).1 q.count_lte,
  (equal_to_iff r.presence_count_eq q.presence.count).1 q.count_eq,
  (at_least_iff r.presence_confidence_gte q.presence.confidence).1 q.confidence,
  attention_complete r s
      (λ a v f g. (at_least_iff r.attention_engaged_gte v).1 (q.attention a v f g)),
  (suppressed_iff r s).1 q.suppression,
  demographics_complete r s q.demographics,
  (at_least_iff r.time_hour_gte hour).1 q.from_hour,
  (at_most_iff r.time_hour_lte hour).1 q.to_hour,
)

-- A rule matches a signal exactly when every condition that it sets is satisfied; a signal without
-- presence matches no rule, and a condition on demographics fails on a suppressed signal.
pub matches_iff :
    (r : Rule) (s : Signal) (hour : ℕ) → (matches r s (some hour) hour ≡ true) ↔ Satisfies r s hour
unfolding matches
matches_iff r s hour = (
  λ h. elim (Option-cases s.presence) [
    | inl e ↦ absurd (ground arith)
    | inr (p, e) ↦ sound_at r s hour p e (ground arith)
  ],
  λ q. ground (arith, q.seen, complete_at r s hour q),
)
