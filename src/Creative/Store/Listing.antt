-- ===== src/Creative/Store/Listing.antt =====
-- services/creative/creative/manifest_store.py: `list_manifests`, for operators. Texts are ordered by their
-- code points.
use adaptive_advertisement.Common.{
  ℕ, String, Bool, true, false, Option, some, List, [], ◌∷◌, ltb, ◌==◌, length, if◌then◌else◌, Dict,
  lookup, ◌≡◌, ◌↔◌, arith,
}
use adaptive_advertisement.Common.Outcome.{Outcome, ok, ◌>>=◌}
use adaptive_advertisement.Manifest.{Manifest, Expiry, is_approved}
use adaptive_advertisement.Player.Fallback.{codes}
use adaptive_advertisement.Creative.Store.{Store, found, is_expired, get, serve}

pub record Summary : Type 0 where
  pub manifest_id : String
  pub approved : Bool
  pub expired : Bool
  pub item_count : ℕ
  pub approved_at : Option String
  pub expires_at : Option String

-- `self._is_expired(m) if approved else False`
expired_if : (String → Expiry) → ℕ → Manifest → Outcome Bool
expired_if expiry_of now m = if is_approved m then is_expired expiry_of now m else ok false

unfoldable pub summary_of : (String → Expiry) → ℕ → Manifest → Outcome Summary
unfolding expired_if
summary_of expiry_of now m = expired_if expiry_of now m >>= λ late. ok (record {
  manifest_id = m.manifest_id;
  approved = is_approved m;
  expired = late;
  item_count = length m.items;
  approved_at = m.approved_at;
  expires_at = m.expires_at;
})

unfoldable pub summaries : (String → Expiry) → ℕ → Dict Manifest → Outcome (List Summary)
summaries expiry_of now [] = ok []
summaries expiry_of now ((k, m) ∷ d) =
    let rest = summaries expiry_of now d in
    summary_of expiry_of now m >>= λ s. rest >>= λ ss. ok (s ∷ ss)

before : List ℕ → List ℕ → Bool
before [] [] = false
before [] (y ∷ ys) = true
before (x ∷ xs) [] = false
before (x ∷ xs) (y ∷ ys) = let rest = before xs ys in if x == y then rest else ltb x y

-- `sorted(result, key=lambda x: x["manifest_id"])`
insert_sorted : Summary → List Summary → List Summary
unfolding before
insert_sorted s [] = s ∷ []
insert_sorted s (x ∷ xs) =
    let rest = insert_sorted s xs in
    if before (codes x.manifest_id) (codes s.manifest_id) then x ∷ rest else s ∷ x ∷ xs

sorted : List Summary → List Summary
unfolding insert_sorted
sorted [] = []
sorted (s ∷ ss) = insert_sorted s (sorted ss)

unfoldable pub list_manifests : (String → Expiry) → ℕ → Store → Outcome (List Summary)
unfolding sorted
list_manifests expiry_of now s = summaries expiry_of now s.manifests >>= λ ss. ok (sorted ss)

-- What an operator sees as approved and not expired is what the service serves at that time.
pub summary_of-get :
    (expiry_of : String → Expiry) (now : ℕ) (id : String) (s : Store) (m : Manifest) (x : Summary)
    → lookup id s.manifests ≡ some m
    → summary_of expiry_of now m ≡ ok x
    → ((x.approved ≡ true) × (x.expired ≡ false)) ↔ (get expiry_of now id s ≡ ok (found m))
unfolding summary_of get serve expired_if
summary_of-get expiry_of now id s m x there e = rw there (ground arith)
