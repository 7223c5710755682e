-- ===== src/Api/Prepare.antt =====
-- pkg/api/composition.go: what is filled in before a build or a run. The methods take the
-- composition by value, but its groups by pointers: the heap of the groups is the state.
pub mod Accepted
pub mod Filled
pub mod FilledRun
pub mod ForBuild
pub mod ForRun
pub mod Runners
use testground.Base.{
  ℕ, ◌+◌, String, Bool, true, false, not, ◌||◌, Option, none, some, List, [], ◌∷◌, ◌++◌, str_eq,
  ltb, ◌==◌, if◌then◌else◌, length, get_elem?,
}
use testground.Base.Int.{ℤ, pos, negsuc, ltb_ℤ}
use testground.Base.Maps.{Map, lookup, insert, add_missing}
use testground.Base.Errors
use testground.Base.Errors.{Fallible, ok, err, panic, fail_if}
use testground.Base.Actions.{Action, pure, raise, lift, ◌>>=◌, ◌>>◌}
use testground.Api.Composition.{
  ConfigMap, Build, Run, Group, Global, Composition, CompositionError, no_builders,
  unsupported_builder, no_test_case, no_runners, unsupported_runner, instances_out_of_range,
  bad_parameter, invalid_index, to_int,
}
use testground.Api.Build.{apply_defaults, str_before, sort_by, itself}
use testground.Api.Manifest.{
  TestPlanManifest, TestCase, Parameter, DefaultValue, test_case_by_name, keys, contains,
  has_builder,
}
use testground.Api.Groups.{for_each, read_all}

-- a nil map reads as the empty one
abbrev pub entries {ℓ} : {V : Type ℓ} → Option (Map V) → Map V
entries none = []
entries (some m) = m

-- the values of `from` that `to` does not have; a nil map is made
abbrev pub fill_map {ℓ} : {V : Type ℓ} → Map V → Option (Map V) → Option (Map V)
fill_map from to = some (add_missing from (entries to))

abbrev pub is_empty {ℓ} : {A : Type ℓ} → List A → Bool
is_empty [] = true
is_empty (x ∷ xs) = false

-- the manifest's configuration of the global builder, below the composition's own
abbrev pub merged_config : Map ConfigMap → String → Option ConfigMap → Option ConfigMap
merged_config configs name own = elim (lookup name configs) [
  | none ↦ own
  | some cfg ↦ fill_map cfg own
]

-- `sort.SearchStrings` on a sorted list: how many strings stand before the one that is looked for
unfoldable pub search_strings : List String → String → ℕ
search_strings [] x = 0
search_strings (s ∷ ss) x = let rest = search_strings ss x in if str_before s x then rest + 1 else 0

abbrev or_missing {ℓ} : {A : Type ℓ} → CompositionError → Option A → Fallible CompositionError A
or_missing e none = err e
or_missing e (some a) = ok a

default_param : String → Parameter → Fallible CompositionError String
default_param n v = elim v.default [
  | DefaultValue.text s ↦ ok s
  | DefaultValue.encoded s ↦ ok s
  | DefaultValue.unencodable ↦ err (bad_parameter n)
]

-- the defaults of a test case's parameters, as strings
unfoldable pub default_params : Map Parameter → Fallible CompositionError (Map String)
unfolding default_param
default_params [] = ok []
default_params ((n, v) ∷ m) =
    Errors.◌>>=◌ (default_param n v)
      (λ s. Errors.◌>>=◌ (default_params m) (λ rest. ok (insert n s rest)))

-- the runner check: `sort.SearchStrings(runners, runner) == len(runners)` refuses
unfoldable pub refuses_runner : List String → String → Bool
unfolding sort_by
refuses_runner runners runner =
    search_strings (sort_by itself runners) runner == length (sort_by itself runners)

abbrev pub out_of_range : ℤ → TestCase → Bool
out_of_range t tcase = ltb_ℤ t tcase.instances.minimum || ltb_ℤ tcase.instances.maximum t

module _ {F : Type 0} where
  -- the first loop of PrepareForBuild: the global build defaults
  unfoldable pub fill_build : Build → Group F → Group F
  fill_build def grp = record grp {
    build = record {
      selectors = if is_empty grp.build.selectors then def.selectors else grp.build.selectors;
      dependencies = apply_defaults grp.build.dependencies def.dependencies;
    };
  }

  -- the second: the global build configuration
  unfoldable pub fill_config : ConfigMap → Group F → Group F
  fill_config config grp = record grp { build_config = fill_map config grp.build_config }

  -- the third: the builder
  unfoldable pub fill_builder : String → Group F → Group F
  fill_builder builder grp = if str_eq grp.builder "" then record grp { builder = builder } else grp

  abbrev pub no_check : Group F → Option CompositionError
  no_check grp = none

  abbrev pub check_builder : TestPlanManifest → String → Group F → Option CompositionError
  check_builder manifest global_builder grp =
      if has_builder manifest grp.builder then none else some (unsupported_builder global_builder)

  abbrev pub trickle_build :
      Option Build → List ℕ → Action (List (Group F)) CompositionError (Unit {0})
  trickle_build none groups = pure tt
  trickle_build (some def) groups = for_each (fill_build def) no_check groups

  abbrev pub trickle_config :
      ConfigMap → List ℕ → Action (List (Group F)) CompositionError (Unit {0})
  trickle_config [] groups = pure tt
  trickle_config (e ∷ config) groups = for_each (fill_config (e ∷ config)) no_check groups

  -- PrepareForBuild
  unfoldable pub prepare_for_build :
      TestPlanManifest → Composition → Action (List (Group F)) CompositionError Composition
  prepare_for_build manifest c = if is_empty manifest.builders then raise no_builders else do
    let config = merged_config manifest.builders c.global.builder c.global.build_config
    trickle_build c.global.build c.groups
    trickle_config (entries config) c.groups
    for_each (fill_builder c.global.builder) (check_builder manifest c.global.builder) c.groups
    pure (record c { global = record c.global { plan = manifest.name; build_config = config } })

  -- the builder that a group uses
  abbrev pub builder_of : Composition → Group F → String
  builder_of c grp = if str_eq grp.builder "" then c.global.builder else grp.builder

  builder_set : Composition → List (Group F) → Map Bool → Map Bool
  builder_set c [] set = set
  builder_set c (grp ∷ grps) set = builder_set c grps (insert (builder_of c grp) true set)

  -- ListBuilders
  unfoldable pub list_builders :
      Composition → List (Group F) → Fallible CompositionError (List String)
  unfolding builder_set keys sort_by
  list_builders c heap =
      Errors.◌>>=◌ (read_all c.groups heap)
        (λ grps. ok (sort_by itself (keys (builder_set c grps []))))

  -- the loop of PrepareForRun over the global run defaults
  unfoldable pub fill_run : Run → Group F → Group F
  fill_run def grp = record grp {
    run = record {
      artifact = if str_eq grp.run.artifact "" then def.artifact else grp.run.artifact;
      test_params = fill_map (entries def.test_params) grp.run.test_params;
      profiles = fill_map (entries def.profiles) grp.run.profiles;
    };
  }

  -- the last loop: the defaults of the test case
  unfoldable pub fill_params : Map String → Group F → Group F
  fill_params defaults grp = record grp {
    run = record grp.run { test_params = fill_map defaults grp.run.test_params };
  }

  abbrev pub trickle_run : Option Run → List ℕ → Action (List (Group F)) CompositionError (Unit {0})
  trickle_run none groups = pure tt
  trickle_run (some def) groups = for_each (fill_run def) no_check groups

  -- PrepareForRun
  unfoldable pub prepare_for_run :
      TestPlanManifest → Composition → Action (List (Group F)) CompositionError Composition
  prepare_for_run manifest c = do
    tcase ←
        lift (or_missing (no_test_case c.global.case) (test_case_by_name manifest c.global.case))
    lift (fail_if (is_empty manifest.runners) no_runners)
    lift (
        fail_if (refuses_runner (keys manifest.runners) c.global.runner)
          (unsupported_runner c.global.runner))
    let config = merged_config manifest.runners c.global.runner c.global.run_config
    lift (
        fail_if (out_of_range (to_int c.global.total_instances) tcase)
          (instances_out_of_range (to_int c.global.total_instances)))
    trickle_run c.global.run c.groups
    defaults ← lift (default_params tcase.parameters)
    for_each (fill_params defaults) no_check c.groups
    pure (record c { global = record c.global { plan = manifest.name; run_config = config } })

-- the indices of PickGroups against the number of groups; a Go int may be negative
abbrev pub beyond : ℕ → ℤ → Bool
beyond n i = not (ltb_ℤ i (pos n))

check_indices : ℕ → List ℤ → Fallible CompositionError (Unit {0})
check_indices n [] = ok tt
check_indices n (i ∷ is) = Errors.◌>>◌ (fail_if (beyond n i) (invalid_index i)) (check_indices n is)

abbrev pub or_panic : Option ℕ → Fallible CompositionError ℕ
or_panic none = panic
or_panic (some p) = ok p

-- `c.Groups[i]`, which panics at a negative index
index_group : List ℕ → ℤ → Fallible CompositionError ℕ
index_group groups (pos i) = or_panic (get_elem? groups i)
index_group groups (negsuc i) = panic

pick : List ℕ → List ℤ → Fallible CompositionError (List ℕ)
pick groups [] = ok []
pick groups (i ∷ is) =
    Errors.◌>>=◌ (index_group groups i) (λ p. Errors.◌>>=◌ (pick groups is) (λ ps. ok (p ∷ ps)))

-- PickGroups
unfoldable pub pick_groups : Composition → List ℤ → Fallible CompositionError Composition
unfolding check_indices pick index_group
pick_groups c indices =
    Errors.◌>>=◌ (check_indices (length c.groups) indices)
      (λ _. Errors.◌>>=◌ (pick c.groups indices) (λ grps. ok (record c { groups = grps })))
