-- ===== src/Dashboard/Rules/Generate/Origins.antt =====
-- Where a generated rule comes from.
use adaptive_advertisement.Common.{
  ℕ, ◌+◌, String, ◌≡◌, refl, inl, inr, Bool-cases, Option, none, some, List, [], ◌∷◌, map, All,
  All-append, IsIn, true,
}
use adaptive_advertisement.Dashboard.Tags.{
  AudienceTag, TimeTag, Tag, dimension, Slot, time_window, Reminder, freq_reminder,
}
use adaptive_advertisement.Decision.Policy.{is_empty}
use adaptive_advertisement.Dashboard.Rules.{
  Tagged, GeneratedRule, window_slots, plain_rule, timed_rule, presence_rule, pairs, dimensioned,
  is_crossed, cross_rule, cross_pairs, generate_cross_dim_rules,
}
use adaptive_advertisement.Dashboard.Rules.Generate.{
  audience_of, times_of, bonus_of, frequency_of, slot_rules, window_rules, time_rules,
  primary_rules, reminder_rule, with_reminder, generate_for_tags, generate_if_tagged,
  generate_rules_for_manifest,
}

-- A slot of a time tag.
pub record IsSlotOf (t : TimeTag) (slot : Option Slot) : Type 0 where
  pub listed : IsIn slot (window_slots (time_window t))

-- The time tags, audience tags and bonus are those of the manifest.
pub data IsGenerated (id : String) (bonus : ℕ) (tags : List AudienceTag) (times : List TimeTag)
    : GeneratedRule → Type 0 where
  plain :
      (a : AudienceTag)
      → IsIn a tags
      → times ≡ []
      → IsGenerated id bonus tags times (plain_rule id bonus a)
  timed :
      (a : AudienceTag) (t : TimeTag) (idx : ℕ) (slot : Option Slot)
      → IsIn a tags
      → IsIn t times
      → IsSlotOf t slot
      → IsGenerated id bonus tags times (timed_rule id bonus t idx slot a)
  present_in :
      (t : TimeTag) (idx : ℕ) (slot : Option Slot)
      → IsIn t times
      → IsSlotOf t slot
      → IsGenerated id bonus tags times (presence_rule id bonus t idx slot)
  crossed :
      (a b : AudienceTag)
      → is_crossed (dimension a) (dimension b) ≡ true
      → times ≡ []
      → IsGenerated id bonus tags times (cross_rule id bonus none 0 none a b)
  crossed_in :
      (a b : AudienceTag) (t : TimeTag) (idx : ℕ) (slot : Option Slot)
      → is_crossed (dimension a) (dimension b) ≡ true
      → IsIn t times
      → IsSlotOf t slot
      → IsGenerated id bonus tags times (cross_rule id bonus (some t) idx slot a b)

pub All-map {ℓ} :
    {A B : Type 0} (P : B → Type ℓ) (f : A → B) (xs : List A)
    → ((x : A) → IsIn x xs → P (f x))
    → All P (map f xs)
All-map P f [] h = tt
All-map P f (x ∷ xs) h = (h x (inl refl), All-map P f xs (λ y i. h y (inr i)))

-- Every pair is of different dimensions.
cross_pairs-All {ℓ} :
    (P : GeneratedRule → Type ℓ) (id : String) (bonus : ℕ) (t : Option TimeTag) (idx : ℕ)
    (slot : Option Slot)
    → ((a b : AudienceTag)
        → is_crossed (dimension a) (dimension b) ≡ true
        → P (cross_rule id bonus t idx slot a b))
    → (ps : List (AudienceTag × AudienceTag)) → All P (cross_pairs id bonus t idx slot ps)
unfolding cross_pairs
cross_pairs-All P id bonus t idx slot h [] = tt
cross_pairs-All P id bonus t idx slot h ((a, b) ∷ rest) =
    elim (Bool-cases (is_crossed (dimension a) (dimension b))) [
      | inl differ ↦ rw differ (h a b differ, cross_pairs-All P id bonus t idx slot h rest)
      | inr same ↦ rw same (cross_pairs-All P id bonus t idx slot h rest)
    ]

module _ (id : String) (bonus : ℕ) (tags : List AudienceTag) (times : List TimeTag) where
  abbrev From : GeneratedRule → Type 0
  From = IsGenerated id bonus tags times

  slot_rules-All :
      (t : TimeTag) (idx : ℕ) (slot : Option Slot) (given : List AudienceTag)
      → ((a : AudienceTag) → IsIn a given → IsIn a tags)
      → IsIn t times
      → IsSlotOf t slot
      → All From (slot_rules id bonus given t idx slot)
  unfolding slot_rules generate_cross_dim_rules
  slot_rules-All t idx slot [] sub i s = (present_in t idx slot i s, tt)
  slot_rules-All t idx slot (a ∷ as') sub i s =
      All-append From (map (timed_rule id bonus t idx slot) (a ∷ as')) _
        (All-map From (timed_rule id bonus t idx slot) (a ∷ as')
          (λ x j. timed x t idx slot (sub x j) i s))
        (cross_pairs-All From id bonus (some t) idx slot
          (λ x y differ. crossed_in x y t idx slot differ i s) (pairs (dimensioned (a ∷ as'))))

  window_rules-All :
      (t : TimeTag) (idx : ℕ) (slots : List (Option Slot))
      → IsIn t times
      → ((s : Option Slot) → IsIn s slots → IsSlotOf t s)
      → All From (window_rules id bonus tags t idx slots)
  unfolding window_rules
  window_rules-All t idx [] i h = tt
  window_rules-All t idx (slot ∷ slots) i h =
      All-append From (slot_rules id bonus tags t idx slot) _
        (slot_rules-All t idx slot tags (λ a j. j) i (h slot (inl refl)))
        (window_rules-All t (idx + 1) slots i (λ s j. h s (inr j)))

  time_rules-All :
      (ts : List TimeTag)
      → ((t : TimeTag) → IsIn t ts → IsIn t times)
      → All From (time_rules id bonus tags ts)
  unfolding time_rules
  time_rules-All [] sub = tt
  time_rules-All (t ∷ ts) sub =
      All-append From (window_rules id bonus tags t 0 (window_slots (time_window t))) _
        (window_rules-All t 0 (window_slots (time_window t)) (sub t (inl refl))
          (λ s j. record { listed = j }))
        (time_rules-All ts (λ u j. sub u (inr j)))

primary_rules-All :
    (id : String) (bonus : ℕ) (tags : List AudienceTag) (times : List TimeTag)
    → All (IsGenerated id bonus tags times) (primary_rules id bonus tags times)
unfolding primary_rules generate_cross_dim_rules
primary_rules-All id bonus tags [] =
    All-append (IsGenerated id bonus tags []) (map (plain_rule id bonus) tags) _
      (All-map (IsGenerated id bonus tags []) (plain_rule id bonus) tags (λ a i. plain a i refl))
      (cross_pairs-All (IsGenerated id bonus tags []) id bonus none 0 none
        (λ a b differ. crossed a b differ refl) (pairs (dimensioned tags)))
primary_rules-All id bonus tags (t ∷ ts) = time_rules-All id bonus tags (t ∷ ts) (t ∷ ts) (λ u i. i)

-- A rule of a manifest, the reminder included.
pub data IsRuleOf (m : Tagged) : GeneratedRule → Type 0 where
  primary :
      (tags : List Tag) (r : GeneratedRule)
      → m.audience_tags ≡ some tags
      → IsGenerated m.manifest_id (bonus_of tags) (audience_of tags) (times_of tags) r
      → IsRuleOf m r
  reminder :
      (tags : List Tag) (r : Reminder)
      → m.audience_tags ≡ some tags
      → freq_reminder (frequency_of tags) ≡ some r
      → IsRuleOf m (reminder_rule m.manifest_id r)

with_reminder-All {ℓ} :
    (P : GeneratedRule → Type ℓ) (id : String) (o : Option Reminder) (gs : List GeneratedRule)
    → All P gs
    → ((r : Reminder) → o ≡ some r → P (reminder_rule id r))
    → All P (with_reminder id o gs)
unfolding with_reminder
with_reminder-All P id (some r) (g ∷ gs) h k = All-append P (g ∷ gs) _ h (k r refl, tt)
with_reminder-All P id (some r) [] h k = h
with_reminder-All P id none gs h k = h

pub All-weaken {ℓ κ} :
    {A : Type 0} (P : A → Type ℓ) (Q : A → Type κ) (xs : List A)
    → ((x : A) → P x → Q x)
    → All P xs
    → All Q xs
All-weaken P Q [] h k = tt
All-weaken P Q (x ∷ xs) h k = (h x k.0, All-weaken P Q xs h k.1)

generate_if_tagged-All :
    (m : Tagged) (o : Option (List Tag))
    → m.audience_tags ≡ o
    → All (IsRuleOf m) (generate_if_tagged m.manifest_id o)
unfolding generate_if_tagged generate_for_tags
generate_if_tagged-All m none e = tt
generate_if_tagged-All m (some tags) e = elim (Bool-cases (is_empty tags)) [
  | inl nothing ↦ rw nothing tt
  | inr some_tags ↦ rw some_tags (
      with_reminder-All (IsRuleOf m) m.manifest_id (freq_reminder (frequency_of tags)) _
        (All-weaken (IsGenerated m.manifest_id (bonus_of tags) (audience_of tags) (times_of tags))
          (IsRuleOf m) _ (λ r g. primary tags r e g)
          (primary_rules-All m.manifest_id (bonus_of tags) (audience_of tags) (times_of tags)))
        (λ r f. reminder tags r e f))
]

pub generate-All : (m : Tagged) → All (IsRuleOf m) (generate_rules_for_manifest m)
unfolding generate_rules_for_manifest
generate-All m = generate_if_tagged-All m m.audience_tags refl
