-- ===== src/Dashboard/Manifests/Sync/Enabled.antt =====
-- The manifests that the rules are generated from are the enabled ones of the table.
use adaptive_advertisement.Common.{
  String, ◌≡◌, refl, sym, ap, ◌∙◌, subst, ◌⊎◌, inl, inr, Bool, true, false, Bool-cases, none, some,
  List, [], ◌∷◌, map, leb, Dict, lookup, insert, lookup-insert, arith, str_eq, eq_iff, IsIn,
}
use adaptive_advertisement.Dashboard.Rules.{Tagged}
use adaptive_advertisement.Dashboard.Manifests.{Manifest, Api, Response, is_enabled}
use adaptive_advertisement.Dashboard.Manifests.Requests.{Request, handle, handle_all}
use adaptive_advertisement.Dashboard.Manifests.Moves.{
  new_row, IsHandled, refused, registered, moved, handle-IsHandled,
}
use adaptive_advertisement.Dashboard.Manifests.Sync.{
  Row, enabled_rows, time_of, insert_row, order_rows, tagged_rows, enabled_manifests,
}

-- The unique index on the key.
abbrev pub IsUnique : Dict Manifest → Type 0
IsUnique [] = Unit
IsUnique ((k, m) ∷ d) = (lookup k d ≡ none) × IsUnique d

still_absent :
    (k j : String) (m : Manifest) (d : Dict Manifest)
    → str_eq j k ≡ false
    → lookup j d ≡ none
    → lookup j (insert k m d) ≡ none
still_absent k j m d other absent =
    ground (arith, lookup-insert k j m d, eq_iff k j, eq_iff j k, absent, other)

insert-IsUnique :
    (k : String) (m : Manifest) (d : Dict Manifest) → IsUnique d → IsUnique (insert k m d)
unfolding lookup insert
insert-IsUnique k m [] u = (refl, tt)
insert-IsUnique k m ((j, x) ∷ d) (absent, u) = elim (Bool-cases (str_eq j k)) [
  | inl same ↦ rw same (absent, u)
  | inr other ↦ rw other (still_absent k j m d other absent, insert-IsUnique k m d u)
]

handled-IsUnique :
    {ok : Bool} {api : Api} {out : Response Manifest × Api}
    → IsHandled ok api out
    → IsUnique api.manifests
    → IsUnique out.1.manifests
handled-IsUnique (refused code) u = u
handled-IsUnique {api} (registered now body e new) u =
    insert-IsUnique body.manifest_id (new_row now body) api.manifests u
handled-IsUnique {api} (moved id m m' d e found mv) u = insert-IsUnique id m' api.manifests u

pub handle_all-IsUnique :
    (rs : List Request) (api : Api)
    → IsUnique api.manifests
    → IsUnique (handle_all rs api).manifests
unfolding handle_all
handle_all-IsUnique [] api u = u
handle_all-IsUnique (r ∷ rs) api u =
    handle_all-IsUnique rs (handle r api).1 (handled-IsUnique (handle-IsHandled r api) u)

-- In the table, and enabled.
abbrev pub IsEnabled : Dict Manifest → String → Type 0
IsEnabled d id = (m : Manifest) × (lookup id d ≡ some m) × (is_enabled m.status ≡ true)

later_key :
    (k id : String) (x m : Manifest) (d : Dict Manifest)
    → lookup k d ≡ none
    → lookup id d ≡ some m
    → lookup id ((k, x) ∷ d) ≡ some m
unfolding lookup
later_key k id x m d absent found = ground (arith, eq_iff k id, absent, found)

first_key : (k : String) (x : Manifest) (d : Dict Manifest) → lookup k ((k, x) ∷ d) ≡ some x
unfolding lookup
first_key k x d = ground (arith, eq_iff k k)

-- The row of an enabled manifest.
abbrev IsRowOf : Dict Manifest → Row → Type 0
IsRowOf d r = (lookup r.manifest_id d ≡ some r.row) × (is_enabled r.row.status ≡ true)

enabled_rows_sound :
    (d : Dict Manifest) → IsUnique d → (r : Row) → IsIn r (enabled_rows d) → IsRowOf d r
unfolding enabled_rows
enabled_rows_sound [] u r i = elim i [ ]
enabled_rows_sound ((k, m) ∷ d) (absent, u) r i = elim (Bool-cases (is_enabled m.status)) [
  | inl on ↦ elim (rw on at i) as (λ _. IsRowOf ((k, m) ∷ d) r) [
    | inl e ↦ subst (IsRowOf ((k, m) ∷ d)) (sym e) (first_key k m d, on)
    | inr j ↦
        let (found, good) = enabled_rows_sound d u r j in
        (later_key k r.manifest_id m r.row d absent found, good)
  ]
  | inr off ↦
      let (found, good) = enabled_rows_sound d u r (rw off at i) in
      (later_key k r.manifest_id m r.row d absent found, good)
]

insert_row-IsIn : (x r : Row) (rs : List Row) → IsIn x (insert_row r rs) → (x ≡ r) ⊎ IsIn x rs
unfolding insert_row
insert_row-IsIn x r [] i = i
insert_row-IsIn x r (y ∷ ys) i =
    elim (Bool-cases (leb (time_of y.row.enabled_at) (time_of r.row.enabled_at))) [
      | inl first ↦ rw first at i
      | inr later ↦ elim (rw later at i) as (λ _. (x ≡ r) ⊎ IsIn x (y ∷ ys)) [
        | inl e ↦ inr (inl e)
        | inr j ↦ elim (insert_row-IsIn x r ys j) as (λ _. (x ≡ r) ⊎ IsIn x (y ∷ ys)) [
          | inl e ↦ inl e
          | inr k ↦ inr (inr k)
        ]
      ]
    ]

order_rows-IsIn : (x : Row) (rs : List Row) → IsIn x (order_rows rs) → IsIn x rs
unfolding order_rows
order_rows-IsIn x [] i = i
order_rows-IsIn x (r ∷ rs) i =
    elim (insert_row-IsIn x r (order_rows rs) i) as (λ _. IsIn x (r ∷ rs)) [
      | inl e ↦ inl e
      | inr j ↦ inr (order_rows-IsIn x rs j)
    ]

tagged_row :
    (id : String) (rs : List Row)
    → IsIn id (map (λ (t : Tagged). t.manifest_id) (tagged_rows rs))
    → (r : Row) × IsIn r rs × (id ≡ r.manifest_id)
unfolding tagged_rows
tagged_row id [] i = elim i [ ]
tagged_row id (r ∷ rs) (inl e) = (r, inl refl, e)
tagged_row id (r ∷ rs) (inr j) = let (x, k, e) = tagged_row id rs j in (x, inr k, e)

pub enabled_manifests-IsEnabled :
    (api : Api) (id : String)
    → IsUnique api.manifests
    → IsIn id (map (λ (t : Tagged). t.manifest_id) (enabled_manifests api))
    → IsEnabled api.manifests id
unfolding enabled_manifests
enabled_manifests-IsEnabled api id u i =
    let (r, j, e) = tagged_row id (order_rows (enabled_rows api.manifests)) i in
    let (found, on) = enabled_rows_sound api.manifests u r (order_rows-IsIn r _ j) in
    (r.row, ap (λ k. lookup k api.manifests) e ∙ found, on)
