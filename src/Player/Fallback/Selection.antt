-- ===== src/Player/Fallback/Selection.antt =====
-- What the selection of a fallback asset gives: a file that is there and can be played.
use adaptive_advertisement.Common.{
  String, ◌≡◌, refl, sym, subst, ◌∙◌, inl, inr, Bool, true, false, ◌&&◌, ◌||◌, Option, none, some,
  List, [], ◌∷◌, arith, Bool-cases, any, str_eq, is_some, eq_refl,
}
use mathlib.Core.Option.{some-injective}
use adaptive_advertisement.Player.Fallback.{
  Directory, Settings, FallbackBundle, Choice, Source, type_of, builtin_name, is_reserved, has_file,
  find_in, first_playable, try_selected_marker, named_by, explicit_choice, library_marker,
  library_first, builtin_choice, or_else, choose, set_choice, resolve, validate, refresh,
  path_changed, has_separator,
}

-- The chosen file is in its directory, and has the extension of a type that can be played.
pub record IsPlayable (c : Choice) : Type 0 where
  pub there : has_file c.directory c.name ≡ true
  pub playable : is_some (type_of c.name) ≡ true

find_in-IsPlayable :
    (ds : List Directory) (name : String) (source : Source) (c : Choice)
    → find_in ds name source ≡ some c
    → IsPlayable c
unfolding find_in
find_in-IsPlayable [] _ _ c h = cc
find_in-IsPlayable (d ∷ ds) name source c h =
    elim (Bool-cases (has_file d name && is_some (type_of name))) [
      | inl here ↦ ground arith
      | inr later ↦ find_in-IsPlayable ds name source c (rw later at h)
    ]

first_playable_found :
    (skip : String → Bool) (d : Directory) (ns : List String) (source : Source) (c : Choice)
    → first_playable skip d ns source ≡ some c
    → (c.directory ≡ d) × (any (λ n. str_eq n c.name) ns ≡ true) × (is_some (type_of c.name) ≡ true)
unfolding first_playable
first_playable_found _ d [] _ c h = cc
first_playable_found skip d (n ∷ ns) source c h =
    ground (arith, eq_refl n, first_playable_found skip d ns source c)

builtin-type : is_some (type_of builtin_name) ≡ true
unfolding type_of
builtin-type = refl

builtin-source : (d : Directory) → is_some (builtin_choice d) ≡ has_file d builtin_name
unfolding builtin_choice
builtin-source d = ground arith

-- Whatever the search finds has the property.
abbrev pub Finds {ℓ} : (Choice → Type ℓ) → Option Choice → Type ℓ
Finds P o = (c : Choice) → o ≡ some c → P c

Finds-or_else {ℓ} :
    (P : Choice → Type ℓ) (a b : Option Choice) → Finds P a → Finds P b → Finds P (or_else a b)
Finds-or_else P none b fa fb = fb
Finds-or_else P (some c) b fa fb = fa

first-IsPlayable :
    (skip : String → Bool) (d : Directory) (source : Source)
    → Finds IsPlayable (first_playable skip d d.names source)
unfolding has_file
first-IsPlayable skip d source c h =
    let (e, found, t) = first_playable_found skip d d.names source c h in
    record {
      there = subst (λ (x : Directory). any (λ n. str_eq n c.name) x.names ≡ true) (sym e) found;
      playable = t;
    }

named_by-IsPlayable :
    (o : Option String) (search : List Directory) (source : Source)
    → Finds IsPlayable (named_by o search source)
unfolding named_by
named_by-IsPlayable none search source c h = cc
named_by-IsPlayable (some name) search source c h =
    elim (Bool-cases (str_eq name "" || has_separator name)) [
      | inl bad ↦ cc (rw bad at h)
      | inr good ↦ find_in-IsPlayable search name source c (rw good at h)
    ]

marker-IsPlayable :
    (d : Directory) (search : List Directory) (source : Source)
    → Finds IsPlayable (try_selected_marker d search source)
unfolding try_selected_marker
marker-IsPlayable d search source = named_by-IsPlayable d.marker search source

explicit-IsPlayable : (s : Settings) → Finds IsPlayable (explicit_choice s)
unfolding explicit_choice
explicit-IsPlayable s c h = elim (Bool-cases (str_eq s.asset_name "")) [
  | inl empty ↦ cc (rw empty at h)
  | inr named ↦ find_in-IsPlayable _ s.asset_name _ c (rw named at h)
]

library_marker-IsPlayable : (l : Option Directory) → Finds IsPlayable (library_marker l)
unfolding library_marker
library_marker-IsPlayable none c h = cc
library_marker-IsPlayable (some l) c h = marker-IsPlayable l _ _ c h

library_first-IsPlayable : (l : Option Directory) → Finds IsPlayable (library_first l)
unfolding library_first
library_first-IsPlayable none c h = cc
library_first-IsPlayable (some l) c h = first-IsPlayable _ l _ c h

builtin-IsPlayable : (d : Directory) → Finds IsPlayable (builtin_choice d)
unfolding builtin_choice
builtin-IsPlayable d c h = elim (Bool-cases (has_file d builtin_name)) [
  | inl there ↦
      subst IsPlayable (some-injective _ _ (rw there at h))
        (record { there = there; playable = builtin-type })
  | inr gone ↦ cc (rw gone at h)
]

-- The asset that is chosen is in its directory and has a type that can be played.
pub choose-IsPlayable : (s : Settings) (c : Choice) → choose s ≡ some c → IsPlayable c
unfolding choose
choose-IsPlayable s = Finds-or_else IsPlayable _ _ (explicit-IsPlayable s) (
    Finds-or_else IsPlayable _ _ (library_marker-IsPlayable s.library) (
      Finds-or_else IsPlayable _ _ (marker-IsPlayable s.bundle _ _) (
        Finds-or_else IsPlayable _ _ (first-IsPlayable is_reserved s.bundle _) (
          Finds-or_else IsPlayable _ _ (library_first-IsPlayable s.library)
            (builtin-IsPlayable s.bundle)))))

or_else-is_some {ℓ} :
    {A : Type ℓ} (a b : Option A) → is_some b ≡ true → is_some (or_else a b) ≡ true
or_else-is_some none b h = h
or_else-is_some (some x) b h = refl

choose-is_some : (s : Settings) → has_file s.bundle builtin_name ≡ true → is_some (choose s) ≡ true
unfolding choose
choose-is_some s h = or_else-is_some (explicit_choice s) _ (
    or_else-is_some (library_marker s.library) _ (
      or_else-is_some (try_selected_marker s.bundle _ _) _ (
        or_else-is_some (first_playable is_reserved s.bundle s.bundle.names _) _
          (or_else-is_some (library_first s.library) _ (builtin-source s.bundle ∙ h)))))

set_choice-is_some : (o : Option Choice) → is_some (set_choice o).asset_path ≡ is_some o
unfolding set_choice
set_choice-is_some none = refl
set_choice-is_some (some c) = refl

-- With the built-in slate in the bundle the selection always succeeds: `validate` does not raise,
-- and no later `refresh` leaves the player without an asset.
pub validate_succeeds :
    (s : Settings)
    → has_file s.bundle builtin_name ≡ true
    → (validate s ≡ some (resolve s))
      × ((b : FallbackBundle) → is_some (refresh s b).0.asset_path ≡ true)
unfolding validate resolve refresh
validate_succeeds s h =
    let found : is_some (set_choice (choose s)).asset_path ≡ true =
      set_choice-is_some (choose s) ∙ choose-is_some s h in
    (rw found, λ b. found)

path_changed_refl : (o : Option String) → path_changed o o ≡ false
unfolding path_changed
path_changed_refl none = refl
path_changed_refl (some p) = rw eq_refl

-- A second refresh over the same files reports no change.
pub refresh_settles :
    (s : Settings) (b : FallbackBundle) → (refresh s (refresh s b).0 ≡ ((refresh s b).0, false))
unfolding refresh
refresh_settles s b = rw (path_changed_refl (resolve s).asset_path)
