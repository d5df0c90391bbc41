-- ===== src/Dashboard/Listings/Pages.antt =====
-- What the pages of a listing hold together.
use adaptive_advertisement.Common.{ℕ, zero, suc, Option, List, [], ◌++◌}
use adaptive_advertisement.Dashboard.Listings.{paginate}

-- The items of the first `k` pages.
pub items_to {ℓ} : {A : Type ℓ} → Option ℕ → List A → ℕ → List A
items_to size rows zero = []
items_to size rows (suc k) = items_to size rows k ++ (paginate size (suc k) rows).items
