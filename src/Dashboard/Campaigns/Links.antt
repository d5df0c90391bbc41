-- ===== src/Dashboard/Campaigns/Links.antt =====
-- The links of campaigns over every sequence of requests.
use adaptive_advertisement.Common.{
  ℕ, String, ◌≡◌, ◌⊎◌, refl, sym, ap, subst, Bool, true, false, not, Bool-cases, Option, none, some,
  List, [], ◌∷◌, ◌++◌, Dict, lookup, arith, inl, inr, All, All-append, any, filter, str_eq, eq_iff,
}
use adaptive_advertisement.Dashboard.Manifests.{Manifest, Response}
use adaptive_advertisement.Dashboard.Campaigns.{
  Campaign, CampaignManifest, CampaignIn, Tables, is_activatable, is_archived, is_link,
  max_position, next_position, CampaignOut, get_campaign_or_404, create_campaign, linked, add_found,
  add_manifest_to_campaign, remove_found, remove_manifest_from_campaign, archive_campaign,
}
use adaptive_advertisement.Dashboard.Campaigns.Changes.{CampaignUpdate, update_row, update_campaign}

pub data Request : Type 0 where
  create : (now : ℕ) (id : String) → CampaignIn → Request
  update : (now : ℕ) (id : String) → CampaignUpdate → Request
  -- with the manifests of that time
  add : (now : ℕ) (id manifest_id : String) → Dict Manifest → Request
  remove : (now : ℕ) (id manifest_id : String) → Dict Manifest → Request
  archive : (now : ℕ) (id : String) → Request

unfoldable pub handle : Request → Tables → Response CampaignOut × Tables
handle (create now id body) t = create_campaign now id body t
handle (update now id body) t = update_campaign now id body t
handle (add now id m manifests) t = add_manifest_to_campaign now id m manifests t
handle (remove now id m manifests) t = remove_manifest_from_campaign now id m manifests t
handle (archive now id) t = archive_campaign now id t

unfoldable pub handle_all : List Request → Tables → Tables
handle_all [] t = t
handle_all (r ∷ rs) t = handle_all rs (handle r t).1

-- What a request does to the links.
pub data Changed (t : Tables) : Tables → Type 0 where
  same : (t' : Tables) → t'.campaign_manifests ≡ t.campaign_manifests → Changed t t'
  added :
      (t' : Tables) (id m : String) (c : Campaign) (row : Manifest)
      → lookup id t.campaigns ≡ some c
      → is_archived c.status ≡ false
      → is_activatable row.status ≡ true
      → any (is_link id m) t.campaign_manifests ≡ false
      → t'.campaign_manifests
        ≡ t.campaign_manifests
          ++ record {
            campaign_id = id;
            manifest_id = m;
            position = next_position (max_position id t.campaign_manifests);
          }
            ∷ []
      → Changed t t'
  removed :
      (t' : Tables) (keep : CampaignManifest → Bool)
      → t'.campaign_manifests ≡ filter keep t.campaign_manifests
      → Changed t t'

get-Changed :
    (t : Tables) (o : Option Campaign) (rest : Campaign → Response CampaignOut × Tables)
    → ((c : Campaign) → o ≡ some c → Changed t (rest c).1)
    → Changed t (get_campaign_or_404 t o rest).1
unfolding get_campaign_or_404
get-Changed t none rest h = same t refl
get-Changed t (some c) rest h = h c refl

update-Changed :
    (now : ℕ) (id : String) (b : CampaignUpdate) (t : Tables) (c : Campaign)
    → (update_row now id b t c).1.campaign_manifests ≡ t.campaign_manifests
unfolding update_row
update-Changed now id b t c = ground arith

add-Changed :
    (now : ℕ) (id m : String) (t : Tables) (c : Campaign) (o : Option Manifest)
    → lookup id t.campaigns ≡ some c
    → is_archived c.status ≡ false
    → Changed t (add_found now id m t c o).1
unfolding add_found linked
add-Changed now id m t c none found live = same t refl
add-Changed now id m t c (some row) found live = elim (Bool-cases (is_activatable row.status)) [
  | inr refused ↦ rw refused (same t refl)
  | inl good ↦ rw good (elim (Bool-cases (any (is_link id m) t.campaign_manifests)) [
    | inl there ↦ rw there (same t refl)
    | inr new ↦ rw new (added _ id m c row found live good new refl)
  ])
]

remove-Changed :
    (now : ℕ) (id m : String) (t : Tables) (c : Campaign) (o : Option Manifest)
    → Changed t (remove_found now id m t c o).1
unfolding remove_found
remove-Changed now id m t c none = same t refl
remove-Changed now id m t c (some row) =
    elim (Bool-cases (any (is_link id m) t.campaign_manifests)) [
      | inl there ↦ rw there (removed _ (λ l. not (is_link id m l)) refl)
      | inr gone ↦ rw gone (same t refl)
    ]

pub handle-Changed : (r : Request) (t : Tables) → Changed t (handle r t).1
unfolding handle create_campaign update_campaign add_manifest_to_campaign
    remove_manifest_from_campaign archive_campaign
handle-Changed (create now id body) t = same _ refl
handle-Changed (update now id body) t =
    get-Changed t (lookup id t.campaigns) (update_row now id body t)
      (λ c e. same _ (update-Changed now id body t c))
handle-Changed (add now id m manifests) t = get-Changed t (lookup id t.campaigns) _ (λ c e.
    elim (Bool-cases (is_archived c.status)) [
      | inl over ↦ rw over (same t refl)
      | inr live ↦ rw live (add-Changed now id m t c (lookup m manifests) e live)
    ])
handle-Changed (remove now id m manifests) t =
    get-Changed t (lookup id t.campaigns) _
      (λ c e. remove-Changed now id m t c (lookup m manifests))
handle-Changed (archive now id) t = get-Changed t (lookup id t.campaigns) _ (λ c e.
    elim (Bool-cases (is_archived c.status)) [
      | inl over ↦ rw over (same t refl)
      | inr live ↦ rw live (same _ refl)
    ])

-- Every link stands at position 0, and no manifest is in a campaign twice.
abbrev pub IsFirst : CampaignManifest → Type 0
IsFirst l = l.position ≡ 0

abbrev pub IsOnce : List CampaignManifest → Type 0
IsOnce [] = Unit
IsOnce (l ∷ ls) = (any (is_link l.campaign_id l.manifest_id) ls ≡ false) × IsOnce ls

low :
    (id : String) (ls : List CampaignManifest)
    → All IsFirst ls
    → (max_position id ls ≡ none) ⊎ (max_position id ls ≡ some 0)
unfolding max_position
low id [] h = inl refl
low id (l ∷ ls) (e, h) = elim (Bool-cases (str_eq l.campaign_id id)) [
  | inr other ↦ rw other (low id ls h)
  | inl mine ↦
      rw mine (elim (low id ls h) [ inl f ↦ inr (rw f (ap some e)) | inr f ↦ inr (rw (f, e)) ])
]

next_first : (o : Option ℕ) → (o ≡ none) ⊎ (o ≡ some 0) → next_position o ≡ 0
unfolding next_position
next_first o (inl e) = rw e
next_first o (inr e) = rw e

filter-All :
    (p : CampaignManifest → Bool) (ls : List CampaignManifest)
    → All IsFirst ls
    → All IsFirst (filter p ls)
filter-All p [] h = tt
filter-All p (l ∷ ls) (e, h) = elim (Bool-cases (p l)) [
  | inl kept ↦ rw kept (e, filter-All p ls h)
  | inr gone ↦ rw gone (filter-All p ls h)
]

any-filter :
    (p q : CampaignManifest → Bool) (ls : List CampaignManifest)
    → any p ls ≡ false
    → any p (filter q ls) ≡ false
any-filter p q [] h = refl
any-filter p q (l ∷ ls) h = ground (arith, any-filter p q ls)

filter-IsOnce :
    (p : CampaignManifest → Bool) (ls : List CampaignManifest) → IsOnce ls → IsOnce (filter p ls)
filter-IsOnce p [] h = tt
filter-IsOnce p (l ∷ ls) (new, h) = elim (Bool-cases (p l)) [
  | inl kept ↦
      rw kept (any-filter (is_link l.campaign_id l.manifest_id) p ls new, filter-IsOnce p ls h)
  | inr gone ↦ rw gone (filter-IsOnce p ls h)
]

any-append_last :
    (p : CampaignManifest → Bool) (ls : List CampaignManifest) (x : CampaignManifest)
    → any p ls ≡ false
    → p x ≡ false
    → any p (ls ++ x ∷ []) ≡ false
any-append_last p [] x h k = rw k
any-append_last p (l ∷ ls) x h k = ground (arith, any-append_last p ls x, k)

is_link_sym :
    (l x : CampaignManifest)
    → is_link x.campaign_id x.manifest_id l ≡ false
    → is_link l.campaign_id l.manifest_id x ≡ false
unfolding is_link
is_link_sym l x h = ground (
  arith,
  h,
  eq_iff l.campaign_id x.campaign_id,
  eq_iff x.campaign_id l.campaign_id,
  eq_iff l.manifest_id x.manifest_id,
  eq_iff x.manifest_id l.manifest_id,
)

append-IsOnce :
    (ls : List CampaignManifest) (x : CampaignManifest)
    → any (is_link x.campaign_id x.manifest_id) ls ≡ false
    → IsOnce ls
    → IsOnce (ls ++ x ∷ [])
append-IsOnce [] x new h = (refl, tt)
append-IsOnce (l ∷ ls) x new (here, h) = (
  any-append_last (is_link l.campaign_id l.manifest_id) ls x here (is_link_sym l x (ground arith)),
  append-IsOnce ls x (ground arith) h,
)

abbrev IsUnordered : List CampaignManifest → Type 0
IsUnordered ls = All IsFirst ls × IsOnce ls

changed-IsUnordered :
    {t t' : Tables}
    → Changed t t'
    → IsUnordered t.campaign_manifests
    → IsUnordered t'.campaign_manifests
changed-IsUnordered (same t' e) h = subst IsUnordered (sym e) h
changed-IsUnordered {t} (added t' id m c row found live good new e) (first, once) =
    subst IsUnordered (sym e) (
      All-append IsFirst t.campaign_manifests _ first (
        next_first (max_position id t.campaign_manifests) (low id t.campaign_manifests first),
        tt,
      ),
      append-IsOnce t.campaign_manifests _ new once,
    )
changed-IsUnordered {t} (removed t' keep e) (first, once) =
    subst IsUnordered (sym e)
      (filter-All keep t.campaign_manifests first, filter-IsOnce keep t.campaign_manifests once)

-- If every link stands at position 0 and no manifest is in a campaign twice, as in an empty table, this
-- stays so after every sequence of requests: every link of every campaign stands at
-- position 0, so that the positions do not tell in which order the manifests were added; and no
-- manifest is in a campaign twice.
pub positions_zero :
    (rs : List Request) (t : Tables)
    → All IsFirst t.campaign_manifests
    → IsOnce t.campaign_manifests
    → All IsFirst (handle_all rs t).campaign_manifests × IsOnce (handle_all rs t).campaign_manifests
unfolding handle_all
positions_zero [] t h k = (h, k)
positions_zero (r ∷ rs) t h k =
    let next = changed-IsUnordered (handle-Changed r t) (h, k) in
    positions_zero rs (handle r t).1 next.0 next.1
