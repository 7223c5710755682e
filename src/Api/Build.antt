-- ===== src/Api/Build.antt =====
-- pkg/api/composition.go: dependencies and their defaults, and the build keys by which a build
-- merges groups.
pub mod Defaults
pub mod Keys
use Prim.Native.String.{◌++◌ as concat}
use testground.Base.{
  String, Bool, true, false, Option, none, some, List, [], ◌∷◌, ◌++◌, str_eq, if◌then◌else◌, map,
}
use mathlib.Core.Option
use testground.Base.Errors.{Fallible, ok, err, panic}
use testground.Base.Maps.{Map, lookup, insert}
use testground.Task.Bytes.{codes, before}
use testground.Task.Payload.{Json}
use testground.Api.Composition.{ConfigMap, Dependency, Build, Group}

-- Go's order of strings: UTF-8 keeps the order of the code points
abbrev pub str_before : String → String → Bool
str_before a b = before (codes a) (codes b)

module _ {A : Type 0} (key : A → String) where
  -- the sorted list with `x` before the elements of the same key
  unfoldable pub insert_sorted : A → List A → List A
  insert_sorted x [] = x ∷ []
  insert_sorted x (y ∷ ys) =
      if str_before (key y) (key x) then y ∷ insert_sorted x ys else x ∷ y ∷ ys

  -- `sort.SliceStable` by the key, which for `sort.Strings` is the string
  unfoldable pub sort_by : List A → List A
  unfolding insert_sorted
  sort_by [] = []
  sort_by (x ∷ xs) = insert_sorted x (sort_by xs)

abbrev pub itself : String → String
itself s = s

-- `strings.Join`
unfoldable pub join : String → List String → String
join sep [] = ""
join sep (s ∷ []) = s
join sep (s ∷ t ∷ ss) = concat s (concat sep (join sep (t ∷ ss)))

-- `fmt.Sprintf("%s:%s|", d.Module, d.Version)`, one after the other
unfoldable pub write_dependencies : List Dependency → String
write_dependencies [] = ""
write_dependencies (d ∷ ds) =
    concat d.module_path (concat ":" (concat d.version (concat "|" (write_dependencies ds))))

-- Build.BuildKey
unfoldable pub build_key : Build → String
unfolding sort_by join write_dependencies
build_key b = concat "selectors=" (
    concat (join "," (sort_by itself b.selectors)) (
      concat ";" (
        concat "dependencies="
          (write_dependencies (sort_by (λ (d : Dependency). d.module_path) b.dependencies)))))

-- The JSON object of Group.BuildKey; an object's fields are written in the order of their names.
pub record KeyDocument : Type 0 where
  pub builder : String
  pub build_config : Option ConfigMap
  pub build_as_key : String

-- Group.BuildKey, as the object that it encodes
unfoldable pub group_key : {F : Type 0} → Group F → Fallible String KeyDocument
unfolding build_key sort_by
group_key g =
    if str_eq g.builder ""
    then panic
    else ok (record {
      builder = g.builder;
      build_config = Option.map (sort_by (λ (e : String × Json). e.0)) g.build_config;
      build_as_key = build_key g.build;
    })

-- AsMap: the last version of a module wins
unfoldable pub as_map_from : Map String → List Dependency → Map String
as_map_from m [] = m
as_map_from m (d ∷ ds) = as_map_from (insert d.module_path d.version m) ds

unfoldable pub as_map : List Dependency → Map String
unfolding as_map_from
as_map = as_map_from []

-- the loop of ApplyDefaults over the map of the defaults
unfoldable pub missing : Map String → Map String → List Dependency
missing into [] = []
missing into ((mod_path, ver) ∷ defaults) = elim (lookup mod_path into) [
  | some _ ↦ missing into defaults
  | none ↦ record { module_path = mod_path; target = ""; version = ver } ∷ missing into defaults
]

-- ApplyDefaults
unfoldable pub apply_defaults : List Dependency → List Dependency → List Dependency
unfolding missing as_map
apply_defaults [] defaults = defaults
apply_defaults (d ∷ ds) defaults = d ∷ ds ++ missing (as_map (d ∷ ds)) (as_map defaults)
