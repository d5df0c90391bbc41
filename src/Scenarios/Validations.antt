-- ===== src/Scenarios/Validations.antt =====
-- Tags of requests, uploads and pages.
use adaptive_advertisement.Common.{
  ℕ, ◌≡◌, ◌↔◌, refl, true, some, List, [], ◌∷◌, ◌++◌, map, All, lookup,
}
use adaptive_advertisement.Dashboard.Tags.{Tag}
use adaptive_advertisement.Dashboard.Tags.Validation.{
  tag_name, tag_of, validate_audience_tags, is_known, IsDistinct,
}
use adaptive_advertisement.Dashboard.Tags.Validation.Accepted.{validate_iff}
use adaptive_advertisement.Dashboard.Assets.{Sha256, Store}
use adaptive_advertisement.Dashboard.Assets.Stored.{
  IsStreaming, IsStored, Request, upload, archive, handle_all, handle_all-IsStored,
}

validate_iff_example :
    ((validate_audience_tags ("male_focus" ∷ "time_lunch" ∷ [])
        ≡ some ("male_focus" ∷ "time_lunch" ∷ []))
      ↔ ((ts : List Tag) × All (λ t. is_known t ≡ true) ts
          × (map tag_name ts ≡ "male_focus" ∷ "time_lunch" ∷ [])
          × IsDistinct ("male_focus" ∷ "time_lunch" ∷ [])))
    × ((ts : List Tag) → All (λ t. is_known t ≡ true) ts → map tag_of (map tag_name ts) ≡ ts)
validate_iff_example = validate_iff ("male_focus" ∷ "time_lunch" ∷ [])

abbrev rows : List ℕ
rows = 5 ∷ 4 ∷ 3 ∷ 2 ∷ 1 ∷ []

-- A hash that keeps all bytes.
abbrev plain : Sha256
plain = record { State = List ℕ; new = []; update = λ s b. s ++ b; hexdigest = λ s. "digest" }

append_assoc : (a b c : List ℕ) → (a ++ b) ++ c ≡ a ++ (b ++ c)
append_assoc [] b c = refl
append_assoc (x ∷ a) b c = rw (append_assoc a b c) refl

plain-IsStreaming : IsStreaming plain
plain-IsStreaming = record { twice = append_assoc; nothing = refl }

abbrev uploads : List Request
uploads =
    upload 10 "a-1" (some "menu.png") (
      record { bytes = 1 ∷ 2 ∷ []; written = true }
      ∷ record { bytes = 3 ∷ []; written = true }
      ∷ [])
    ∷ archive 20 "a-1"
    ∷ []

abbrev empty_store : Store
empty_store = record { assets = []; disk = []; audit_events = [] }

handle_all-IsStored_example : IsStored plain (handle_all plain uploads empty_store)
unfolding lookup
handle_all-IsStored_example =
    handle_all-IsStored plain uploads empty_store plain-IsStreaming (refl, (tt, tt))
      (λ id a found. absurd (cc found))
