-- ===== src/Dashboard/Rules/Merging.antt =====
-- When the merged conditions of two tags are met.
use adaptive_advertisement.Common.{
  ℕ, ◌≤◌, ◌≡◌, refl, ◌⊎◌, inl, inr, true, false, none, some, arith, max,
}
use adaptive_advertisement.Decision.Signal.{Bin, Signal, Presence, is_suppressed, share}
use adaptive_advertisement.Decision.Policy.{Conditions}
use adaptive_advertisement.Dashboard.Tags.{
  AudienceTag, attract, general, solo_adult, dimension, attention_gate_threshold, is_gate_excluded,
  audience_conditions,
}
use adaptive_advertisement.Dashboard.Rules.{merge_value, merge_conditions, merge_flag, is_crossed}
use adaptive_advertisement.Dashboard.Rules.Bounds.{
  merged_parts, merged_whole, max_down, max_up, merged_one,
}
use adaptive_advertisement.Dashboard.Rules.Meeting.{Meets}

-- The tags set no upper bound and nothing on suppression.
pub record IsLower (c : Conditions) : Type 0 where
  pub lte : c.presence_count_lte ≡ none
  pub suppressed : c.demographics_suppressed_eq ≡ none
  pub from_hour : c.time_hour_gte ≡ none
  pub to_hour : c.time_hour_lte ≡ none

pub audience-IsLower : (a : AudienceTag) → IsLower (audience_conditions a)
unfolding audience_conditions
audience-IsLower attract = record {
  lte = refl;
  suppressed = refl;
  from_hour = refl;
  to_hour = refl;
}
audience-IsLower _ = record { lte = refl; suppressed = refl; from_hour = refl; to_hour = refl }

-- Only `solo_adult` sets an exact count.
eq_once :
    (a b : AudienceTag)
    → is_crossed (dimension a) (dimension b) ≡ true
    → ((audience_conditions a).presence_count_eq ≡ none)
      ⊎ ((audience_conditions b).presence_count_eq ≡ none)
unfolding audience_conditions is_crossed dimension
eq_once attract b h = inl refl
eq_once solo_adult solo_adult h = cc
eq_once solo_adult attract h = inr refl
eq_once solo_adult _ h = inr refl
eq_once _ b h = inl refl

pub gated_of_crossed :
    (a b : AudienceTag)
    → is_crossed (dimension a) (dimension b) ≡ true
    → (is_gate_excluded a ≡ false) × (is_gate_excluded b ≡ false)
unfolding is_crossed dimension is_gate_excluded
gated_of_crossed attract b h = cc
gated_of_crossed general b h = cc
gated_of_crossed a attract h = ground arith
gated_of_crossed a general h = ground arith
gated_of_crossed _ _ h = (refl, refl)

-- The conditions of a tag behind the gate, in a slot.
abbrev pub gated : Conditions → Conditions
gated c = record c { attention_engaged_gte = some attention_gate_threshold }

-- The merged conditions of two tags, behind the gate.
abbrev pub both : AudienceTag → AudienceTag → Conditions
both a b = gated (merge_conditions (audience_conditions a) (audience_conditions b))

-- What neither of the two sets, the merged conditions do not set.
pub both-IsLower : (a b : AudienceTag) → IsLower (both a b)
unfolding merge_conditions merge_flag merge_value
both-IsLower a b =
    let la = audience-IsLower a in
    let lb = audience-IsLower b in
    record {
      lte = rw (la.lte, lb.lte);
      suppressed = rw (la.suppressed, lb.suppressed);
      from_hour = rw (la.from_hour, lb.from_hour);
      to_hour = rw (la.to_hour, lb.to_hour);
    }

module _ (a b : AudienceTag) (differ : is_crossed (dimension a) (dimension b) ≡ true) (s : Signal)
    (hour : ℕ) (p : Presence) where
  abbrev ca : Conditions
  ca = audience_conditions a

  abbrev cb : Conditions
  cb = audience_conditions b

  abbrev InShare : Bin → ℕ → Type 0
  InShare k t = (is_suppressed s ≡ false) × (t ≤ share s k)

  share_down : (k : Bin) (i j : ℕ) → InShare k (max i j) → InShare k i × InShare k j
  share_down k i j h = let (x, y) = max_down (share s k) i j h.1 in ((h.0, x), (h.0, y))

  share_up : (k : Bin) (i j : ℕ) → InShare k i → InShare k j → InShare k (max i j)
  share_up k i j h l = (h.0, max_up (share s k) i j h.1 l.1)

  pub both_parts : Meets (both a b) s hour p → Meets (gated ca) s hour p × Meets (gated cb) s hour p
  unfolding merge_conditions
  both_parts m =
      let la = audience-IsLower a in
      let lb = audience-IsLower b in
      let counts =
        merged_parts (λ t. t ≤ p.count) ca.presence_count_gte cb.presence_count_gte
          (max_down p.count) m.count_gte in
      let exact =
        (merged_one (λ t. p.count ≡ t) ca.presence_count_eq cb.presence_count_eq
            (eq_once a b differ)).0
          m.count_eq in
      let sure =
        merged_parts (λ t. t ≤ p.confidence) ca.presence_confidence_gte cb.presence_confidence_gte
          (max_down p.confidence) m.confidence in
      let shares = λ (k : Bin).
        merged_parts (InShare k) (ca.demographic_gte k) (cb.demographic_gte k) (share_down k)
          (m.demographics k) in
      (
        record {
          count_gte = counts.0;
          count_lte = λ t e. cc (la.lte);
          count_eq = exact.0;
          confidence = sure.0;
          attention = m.attention;
          suppression = λ t e. cc (la.suppressed);
          demographics = λ k. (shares k).0;
          from_hour = λ t e. cc (la.from_hour);
          to_hour = λ t e. cc (la.to_hour);
        },
        record {
          count_gte = counts.1;
          count_lte = λ t e. cc (lb.lte);
          count_eq = exact.1;
          confidence = sure.1;
          attention = m.attention;
          suppression = λ t e. cc (lb.suppressed);
          demographics = λ k. (shares k).1;
          from_hour = λ t e. cc (lb.from_hour);
          to_hour = λ t e. cc (lb.to_hour);
        },
      )

  pub both_whole : Meets (gated ca) s hour p → Meets (gated cb) s hour p → Meets (both a b) s hour p
  unfolding merge_conditions
  both_whole m n =
      let l = both-IsLower a b in
      record {
        count_gte =
            merged_whole (λ t. t ≤ p.count) ca.presence_count_gte cb.presence_count_gte
              (max_up p.count) m.count_gte n.count_gte;
        count_lte = λ t e. cc (l.lte);
        count_eq =
            (merged_one (λ t. p.count ≡ t) ca.presence_count_eq cb.presence_count_eq
                (eq_once a b differ)).1
              (m.count_eq, n.count_eq);
        confidence =
            merged_whole (λ t. t ≤ p.confidence) ca.presence_confidence_gte
              cb.presence_confidence_gte (max_up p.confidence) m.confidence n.confidence;
        attention = m.attention;
        suppression = λ t e. cc (l.suppressed);
        demographics = λ k.
            merged_whole (InShare k) (ca.demographic_gte k) (cb.demographic_gte k) (share_up k)
              (m.demographics k) (n.demographics k);
        from_hour = λ t e. cc (l.from_hour);
        to_hour = λ t e. cc (l.to_hour);
      }
