-- ===== src/Player/Fallback/Priority.antt =====
-- The order in which the selection tries its steps.
use adaptive_advertisement.Common.{
  String, ◌≡◌, refl, ap, ◌≢◌, ◌⊎◌, inl, inr, Bool, true, false, Option, none, some, List, [], ◌∷◌,
  arith, Bool-cases, All, str_eq, is_some,
}
use mathlib.Core.Option.{some-injective}
use adaptive_advertisement.Player.Fallback.{
  Directory, Settings, Choice, Source, builtin, explicit, selected_library, selected_bundle,
  bundle_auto, library_auto, type_of, is_reserved, find_in, first_playable, with_library,
  try_selected_marker, named_by, explicit_choice, library_marker, library_first, or_else, choose,
  selected_marker,
}
use adaptive_advertisement.Player.Fallback.Selection.{Finds}

find_in-source :
    (ds : List Directory) (name : String) (source : Source)
    → Finds (λ c. c.source ≡ source) (find_in ds name source)
unfolding find_in
find_in-source [] _ _ c h = cc
find_in-source (d ∷ ds) name source c h = ground (arith, find_in-source ds name source c)

named_by-source :
    (o : Option String) (search : List Directory) (source : Source)
    → Finds (λ c. c.source ≡ source) (named_by o search source)
unfolding named_by
named_by-source none search source c h = cc
named_by-source (some name) search source c h = ground (arith, find_in-source search name source c)

first-source :
    (skip : String → Bool) (d : Directory) (ns : List String) (source : Source)
    → Finds (λ c. c.source ≡ source) (first_playable skip d ns source)
unfolding first_playable
first-source _ d [] _ c h = cc
first-source skip d (n ∷ ns) source c h = ground (arith, first-source skip d ns source c)

first_playable-none :
    (skip : String → Bool) (d : Directory) (ns : List String) (source : Source)
    → first_playable skip d ns source ≡ none
    → All (λ n. (skip n ≡ true) ⊎ (is_some (type_of n) ≡ false)) ns
unfolding first_playable
first_playable-none _ d [] _ h = tt
first_playable-none skip d (n ∷ ns) source h = ground (arith, first_playable-none skip d ns source)

-- A result of the second part of `or_else` that the first cannot give.
skipped :
    (a b : Option Choice) (c : Choice)
    → or_else a b ≡ some c
    → Finds (λ x. x.source ≢ c.source) a
    → (a ≡ none) × (b ≡ some c)
skipped none b c h f = (refl, h)
skipped (some x) b c h f = absurd (f x refl (ap (λ (y : Choice). y.source) (some-injective _ _ h)))

explicit-source : (s : Settings) → Finds (λ c. c.source ≡ explicit) (explicit_choice s)
unfolding explicit_choice
explicit-source s c h = elim (Bool-cases (str_eq s.asset_name "")) [
  | inl empty ↦ cc (rw empty at h)
  | inr named ↦ find_in-source _ s.asset_name explicit c (rw named at h)
]

marker-source :
    (d : Directory) (search : List Directory) (source : Source)
    → Finds (λ c. c.source ≡ source) (try_selected_marker d search source)
unfolding try_selected_marker
marker-source d search source = named_by-source d.marker search source

library_marker-source :
    (l : Option Directory) → Finds (λ c. c.source ≡ selected_library) (library_marker l)
unfolding library_marker
library_marker-source none c h = cc
library_marker-source (some l) c h = marker-source l _ selected_library c h

library_first-source :
    (l : Option Directory) → Finds (λ c. c.source ≡ library_auto) (library_first l)
unfolding library_first
library_first-source none c h = cc
library_first-source (some l) c h = first-source _ l l.names library_auto c h

-- No file of the library but the marker can be played.
abbrev pub HasNothing : Option Directory → Type 0
HasNothing none = Unit
HasNothing (some l) =
    All (λ n. (str_eq n selected_marker ≡ true) ⊎ (is_some (type_of n) ≡ false)) l.names

library_first-none : (l : Option Directory) → library_first l ≡ none → HasNothing l
unfolding library_first
library_first-none none h = tt
library_first-none (some l) h = first_playable-none _ l l.names library_auto h

-- The built-in slate is the last resort: where it is chosen, every file of the bundle is reserved or
-- cannot be played, and so is every file of the library.
pub builtin_last :
    (s : Settings) (c : Choice)
    → choose s ≡ some c
    → c.source ≡ builtin
    → All (λ n. (is_reserved n ≡ true) ⊎ (is_some (type_of n) ≡ false)) s.bundle.names
      × HasNothing s.library
unfolding choose
builtin_last s c h b =
    let (_, h1) = skipped _ _ c h (λ x e q. cc (explicit-source s x e)) in
    let (_, h2) = skipped _ _ c h1 (λ x e q. cc (library_marker-source s.library x e)) in
    let (_, h3) = skipped _ _ c h2 (λ x e q.
      cc (marker-source s.bundle (with_library s.bundle s.library) selected_bundle x e)) in
    let (n4, h4) =
      skipped _ _ c h3
        (λ x e q. cc (first-source is_reserved s.bundle s.bundle.names bundle_auto x e)) in
    let (n5, _) = skipped _ _ c h4 (λ x e q. cc (library_first-source s.library x e)) in
    (
      first_playable-none is_reserved s.bundle s.bundle.names bundle_auto n4,
      library_first-none s.library n5,
    )
