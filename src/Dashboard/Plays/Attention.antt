-- ===== src/Dashboard/Plays/Attention.antt =====
-- The attention that an impression is recorded with.
use adaptive_advertisement.Common.{
  ℕ, ◌+◌, ◌≤◌, ◌≡◌, refl, subst, sym, true, false, Bool-cases, Option, none, some, List, [], ◌∷◌,
  arith, inl, inr, ltb, IsIn, ap,
}
use mathlib.Core.Option.{some-injective}
use native.Mathlib.Nat.{le_trans}
use adaptive_advertisement.Dashboard.Snapshots.{AudienceSnapshot}
use adaptive_advertisement.Dashboard.Plays.{
  attention_lookup_window_ms, is_near, newer_of, nearest, lookup_attention_at_trigger,
}

-- The latest row of the five seconds before the activation.
pub record IsNearest (at : ℕ) (table : List AudienceSnapshot) (s : AudienceSnapshot) : Type 0 where
  pub stored : IsIn s table
  pub recent : at ≤ s.sampled_at + attention_lookup_window_ms
  pub before : s.sampled_at ≤ at
  pub last :
      (x : AudienceSnapshot) → IsIn x table → is_near at x ≡ true → x.sampled_at ≤ s.sampled_at

-- What is known of the nearest row of the rest of a table.
abbrev IsAnswer : ℕ → List AudienceSnapshot → Option AudienceSnapshot → Type 0
IsAnswer at table none = (x : AudienceSnapshot) → IsIn x table → is_near at x ≡ false
IsAnswer at table (some s) = IsNearest at table s

near_parts :
    (at : ℕ) (s : AudienceSnapshot)
    → is_near at s ≡ true
    → (at ≤ s.sampled_at + attention_lookup_window_ms) × (s.sampled_at ≤ at)
unfolding is_near
near_parts at s h = (ground arith, ground arith)

far_last :
    (at : ℕ) (s y : AudienceSnapshot) (ss : List AudienceSnapshot)
    → is_near at s ≡ false
    → IsNearest at ss y
    → (x : AudienceSnapshot) → IsIn x (s ∷ ss)
    → is_near at x ≡ true
    → x.sampled_at ≤ y.sampled_at
far_last at s y ss far h x (inl e) near = cc (near, far, ap (is_near at) e)
far_last at s y ss far h x (inr i) near = h.last x i near

-- One more row in front that is not near.
far_first :
    (at : ℕ) (s : AudienceSnapshot) (ss : List AudienceSnapshot) (o : Option AudienceSnapshot)
    → is_near at s ≡ false
    → IsAnswer at ss o
    → IsAnswer at (s ∷ ss) o
far_first at s ss none far h = λ x i. elim i as (λ _. is_near at x ≡ false) [
  | inl e ↦ subst (λ y. is_near at y ≡ false) (sym e) far
  | inr j ↦ h x j
]
far_first at s ss (some y) far h = record {
  stored = inr h.stored;
  recent = h.recent;
  before = h.before;
  last = far_last at s y ss far h;
}

newest_last :
    (at : ℕ) (s y : AudienceSnapshot) (ss : List AudienceSnapshot)
    → s.sampled_at ≤ y.sampled_at
    → IsNearest at ss y
    → (x : AudienceSnapshot) → IsIn x (s ∷ ss)
    → is_near at x ≡ true
    → x.sampled_at ≤ y.sampled_at
newest_last at s y ss le h x (inl e) near = rw e le
newest_last at s y ss le h x (inr i) near = h.last x i near

first_last :
    (at : ℕ) (s : AudienceSnapshot) (ss : List AudienceSnapshot) (o : Option AudienceSnapshot)
    → IsAnswer at ss o
    → ((y : AudienceSnapshot) → o ≡ some y → y.sampled_at ≤ s.sampled_at)
    → (x : AudienceSnapshot) → IsIn x (s ∷ ss)
    → is_near at x ≡ true
    → x.sampled_at ≤ s.sampled_at
first_last at s ss o h le x (inl e) near = rw e (omega arith)
first_last at s ss none h le x (inr i) near = cc (near, h x i)
first_last at s ss (some y) h le x (inr i) near = le_trans (h.last x i near) (le y refl)

near_first :
    (at : ℕ) (s : AudienceSnapshot) (ss : List AudienceSnapshot) (o : Option AudienceSnapshot)
    → is_near at s ≡ true
    → IsAnswer at ss o
    → IsNearest at (s ∷ ss) (newer_of s o)
unfolding newer_of
near_first at s ss none near h =
    let (a, b) = near_parts at s near in
    record {
      stored = inl refl;
      recent = a;
      before = b;
      last = first_last at s ss none h (λ y e. cc);
    }
near_first at s ss (some y) near h = elim (Bool-cases (ltb s.sampled_at y.sampled_at)) [
  | inl older ↦ rw older (record {
    stored = inr h.stored;
    recent = h.recent;
    before = h.before;
    last = newest_last at s y ss (ground arith) h;
  })
  | inr newer ↦
      let (a, b) = near_parts at s near in
      rw newer (record {
        stored = inl refl;
        recent = a;
        before = b;
        last = first_last at s ss (some y) h (λ z e. rw (← some-injective _ _ e) (ground arith));
      })
]

nearest-IsAnswer : (at : ℕ) (table : List AudienceSnapshot) → IsAnswer at table (nearest at table)
unfolding nearest
nearest-IsAnswer at [] = λ x i. elim i [ ]
nearest-IsAnswer at (s ∷ ss) = elim (Bool-cases (is_near at s)) [
  | inl near ↦ rw near (near_first at s ss (nearest at ss) near (nearest-IsAnswer at ss))
  | inr far ↦ rw far (far_first at s ss (nearest at ss) far (nearest-IsAnswer at ss))
]

answer-attention :
    (at v : ℕ) (table : List AudienceSnapshot) (o : Option AudienceSnapshot)
    → IsAnswer at table o
    → (elim o [ none ↦ none | some s ↦ s.attention_engaged ]) ≡ some v
    → (s : AudienceSnapshot) × (IsNearest at table s × (s.attention_engaged ≡ some v))
answer-attention at v table none h e = cc
answer-attention at v table (some s) h e = (s, (h, e))

-- An attention that an impression is recorded with is that of the latest row of the table among those
-- of the five seconds before the activation.
pub lookup_attention_at_trigger_lem :
    (at v : ℕ) (table : List AudienceSnapshot)
    → lookup_attention_at_trigger at table ≡ some v
    → (s : AudienceSnapshot) × (IsNearest at table s × (s.attention_engaged ≡ some v))
unfolding lookup_attention_at_trigger
lookup_attention_at_trigger_lem at v table e =
    answer-attention at v table (nearest at table) (nearest-IsAnswer at table) e
