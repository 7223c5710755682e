-- ===== src/Api/Build/Defaults.antt =====
-- What ApplyDefaults makes of the dependencies of a group and those of the composition.
use testground.Base.{
  ◌≡◌, refl, ap, ◌∙◌, String, Option, none, some, List, [], ◌∷◌, ◌++◌, eq_iff, arith, All,
}
use testground.Base.Maps.{Map, lookup, insert, lookup-insert, or_else}
use testground.Api.Composition.{Dependency}
use testground.Api.Build.{as_map_from, as_map, missing, apply_defaults}

-- a map's keys are distinct
abbrev pub HasDistinctKeys : Map String → Type 0
HasDistinctKeys [] = Unit
HasDistinctKeys ((k, v) ∷ m) = (lookup k m ≡ none) × HasDistinctKeys m

insert-HasDistinctKeys :
    (k v : String) (m : Map String) → HasDistinctKeys m → HasDistinctKeys (insert k v m)
unfolding insert
insert-HasDistinctKeys k v [] h = (unfold lookup in refl, tt)
insert-HasDistinctKeys k v ((j, w) ∷ m) h =
    ground (arith, eq_iff j k, eq_iff k j, lookup-insert k j v m, insert-HasDistinctKeys k v m h.1)

as_map_from-HasDistinctKeys :
    (m : Map String) (ds : List Dependency) → HasDistinctKeys m → HasDistinctKeys (as_map_from m ds)
unfolding as_map_from
as_map_from-HasDistinctKeys m [] h = h
as_map_from-HasDistinctKeys m (d ∷ ds) h =
    as_map_from-HasDistinctKeys (insert d.module_path d.version m) ds
      (insert-HasDistinctKeys d.module_path d.version m h)

lookup-nil : (k : String) → lookup {V = String} k [] ≡ none
unfolding lookup
lookup-nil k = refl

lookup-as_map_from :
    (j : String) (m : Map String) (ds : List Dependency)
    → lookup j (as_map_from m ds) ≡ or_else (lookup j (as_map_from [] ds)) (lookup j m)
unfolding as_map_from
lookup-as_map_from j m [] = unfold lookup in refl
lookup-as_map_from j m (d ∷ ds) = ground (
  arith,
  lookup-as_map_from j (insert d.module_path d.version m) ds,
  lookup-as_map_from j (insert d.module_path d.version []) ds,
  lookup-insert d.module_path j d.version m,
  lookup-insert d.module_path j d.version [],
  lookup-nil j,
)

as_map_from-append :
    (m : Map String) (ds es : List Dependency)
    → as_map_from m (ds ++ es) ≡ as_map_from (as_map_from m ds) es
unfolding as_map_from
as_map_from-append m [] es = refl
as_map_from-append m (d ∷ ds) es = as_map_from-append (insert d.module_path d.version m) ds es

abbrev absent_in : Map String → Map String → String → Option String
absent_in into defaults j = elim (lookup j into) [ some _ ↦ none | none ↦ lookup j defaults ]

lookup-missing :
    (j : String) (into defaults : Map String)
    → HasDistinctKeys defaults
    → lookup j (as_map_from [] (missing into defaults)) ≡ absent_in into defaults j
unfolding missing as_map_from lookup
lookup-missing j into [] h = ground arith
lookup-missing j into ((k, v) ∷ defaults) h = ground (
  arith,
  eq_iff k j,
  h.0,
  lookup-missing j into defaults h.1,
  lookup-as_map_from j (insert k v []) (missing into defaults),
  lookup-insert k j v [],
)

-- The map of a group's dependencies after ApplyDefaults: the group's own version of a module, and
-- the default one where the group has none.
pub lookup-apply_defaults :
    (j : String) (ds defaults : List Dependency)
    → lookup j (as_map (apply_defaults ds defaults))
      ≡ or_else (lookup j (as_map ds)) (lookup j (as_map defaults))
unfolding apply_defaults
lookup-apply_defaults j [] defaults = unfold as_map_from in rw (lookup-nil j)
lookup-apply_defaults j (d ∷ ds) defaults =
    let into = as_map (d ∷ ds) in
    ap (lookup j) (as_map_from-append [] (d ∷ ds) (missing into (as_map defaults)))
    ∙ lookup-as_map_from j into (missing into (as_map defaults))
    ∙ ground (
      arith,
      lookup-missing j into (as_map defaults) (as_map_from-HasDistinctKeys [] defaults tt),
    )

All-target :
    (into defaults : Map String)
    → All
        (λ (e : Dependency). (e.target ≡ "") × (lookup e.module_path into ≡ none))
        (missing into defaults)
unfolding missing
All-target into [] = tt
All-target into ((k, v) ∷ defaults) = ground (arith, All-target into defaults)

-- ApplyDefaults keeps the dependencies of a group that has some, and adds only modules that the
-- group lacks. What it adds has an empty Target, whatever target the default has.
pub apply_defaults-target :
    (d : Dependency) (ds defaults : List Dependency)
    → (added : List Dependency) × (apply_defaults (d ∷ ds) defaults ≡ d ∷ ds ++ added)
      × All
          (λ (e : Dependency). (e.target ≡ "") × (lookup e.module_path (as_map (d ∷ ds)) ≡ none))
          added
unfolding apply_defaults
apply_defaults-target d ds defaults = (
  missing (as_map (d ∷ ds)) (as_map defaults),
  refl,
  All-target (as_map (d ∷ ds)) (as_map defaults),
)
