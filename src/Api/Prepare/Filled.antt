-- ===== src/Api/Prepare/Filled.antt =====
-- pkg/api/composition.go: what a group holds, field by field, after PrepareForBuild.
use testground.Base.{
  ℕ, ◌≡◌, ◌⊎◌, refl, sym, ap, ◌∙◌, String, true, false, Option, none, some, List, [], ◌∷◌, str_eq,
  if◌then◌else◌, arith, inl, inr, get_elem?, length,
}
use testground.Task.Payload.{Json}
use testground.Base.Maps.{lookup, or_else}
use testground.Base.Errors.{Fallible, ok, err}
use testground.Task.Database.{Elem}
use testground.Api.Composition.{
  ConfigMap, Build, Dependency, Group, Composition, CompositionError, unsupported_builder,
}
use testground.Api.Manifest.{TestPlanManifest, has_builder}
use testground.Api.Build.{as_map, as_map_from}
use testground.Api.Build.Defaults.{lookup-apply_defaults}
use testground.Api.Groups.{AllInside, AllDistinct}
use testground.Api.Prepare.{
  entries, is_empty, fill_build, fill_config, fill_builder, prepare_for_build,
}
use testground.Api.Prepare.ForBuild.{
  after, build_effect, config_effect, config_of, with_build_config, prepare_for_build_total,
  prepared-precedence, lookup-merged_config, or_else-none,
}

-- the selectors of a group, or else those of the composition
abbrev pub wanted_selectors : Option Build → List String → List String
wanted_selectors def (s ∷ own) = s ∷ own
wanted_selectors none [] = []
wanted_selectors (some def) [] = def.selectors

abbrev default_dependencies : Option Build → List Dependency
default_dependencies none = []
default_dependencies (some def) = def.dependencies

-- the value of a key: the group's own, or else the composition's, or else the one that the manifest
-- has for the builder of the composition
abbrev composition_value : TestPlanManifest → Composition → String → Option Json
composition_value manifest c k =
    or_else (lookup k (entries c.global.build_config))
      (lookup k (entries (lookup c.global.builder manifest.builders)))

-- `g'` is `g` with what it lacks filled in, in each field that PrepareForBuild fills, and the same
-- in the others
pub record IsFilled {F : Type 0} (manifest : TestPlanManifest) (c : Composition) (g g' : Group F)
    : Type 0 where
  pub builder_filled : g'.builder ≡ (if str_eq g.builder "" then c.global.builder else g.builder)
  pub selectors_filled : g'.build.selectors ≡ wanted_selectors c.global.build g.build.selectors
  pub dependencies_filled :
      (module_path : String)
      → lookup module_path (as_map g'.build.dependencies)
        ≡ or_else
            (lookup module_path (as_map g.build.dependencies))
            (lookup module_path (as_map (default_dependencies c.global.build)))
  pub config_filled :
      (k : String)
      → lookup k (entries g'.build_config)
        ≡ or_else (lookup k (entries g.build_config)) (composition_value manifest c k)
  pub same_id : g'.id ≡ g.id
  pub same_resources : g'.resources ≡ g.resources
  pub same_instances : g'.instances ≡ g.instances
  pub same_run : g'.run ≡ g.run
  pub same_count : g'.calculated_instance_cnt ≡ g.calculated_instance_cnt

-- the composition that is returned: with the name of the plan, and the configuration filled in
pub record IsReturned (manifest : TestPlanManifest) (c c' : Composition) : Type 0 where
  pub config : Option ConfigMap
  pub composition :
      c' ≡ record c { global = record c.global { plan = manifest.name; build_config = config } }
  pub config_filled : (k : String) → lookup k (entries config) ≡ composition_value manifest c k

own_selectors :
    (own given : List String) (def : Build)
    → def.selectors ≡ given
    → (if is_empty own then given else own) ≡ wanted_selectors (some def) own
own_selectors [] given def h = cc h
own_selectors (s ∷ own) given def h = refl

no_selectors : (own : List String) → own ≡ wanted_selectors none own
no_selectors [] = refl
no_selectors (s ∷ own) = refl

no_dependencies :
    (j : String) (own : List Dependency)
    → lookup j (as_map own) ≡ or_else (lookup j (as_map own)) (lookup j (as_map []))
unfolding lookup as_map as_map_from
no_dependencies j own = sym (or_else-none (lookup j (as_map own)))

with_build_config-IsReturned :
    (manifest : TestPlanManifest) (c : Composition)
    → IsReturned manifest c (with_build_config manifest c)
with_build_config-IsReturned manifest c = record {
  config = (with_build_config manifest c).global.build_config;
  composition = refl;
  config_filled = lookup-merged_config manifest.builders c.global.builder c.global.build_config;
}

module _ {F : Type 0} where
  -- what fill_builder and config_effect leave alone
  fill_builder-build :
      (builder : String) (g : Group F)
      → ((fill_builder builder g).build ≡ g.build)
        × ((fill_builder builder g).id ≡ g.id)
        × ((fill_builder builder g).resources ≡ g.resources)
        × ((fill_builder builder g).instances ≡ g.instances)
        × ((fill_builder builder g).run ≡ g.run)
        × ((fill_builder builder g).calculated_instance_cnt ≡ g.calculated_instance_cnt)
  unfolding fill_builder
  fill_builder-build builder g = ground arith

  config_effect-build :
      (config : ConfigMap) (g : Group F)
      → ((config_effect config g).build ≡ g.build)
        × ((config_effect config g).id ≡ g.id)
        × ((config_effect config g).resources ≡ g.resources)
        × ((config_effect config g).instances ≡ g.instances)
        × ((config_effect config g).run ≡ g.run)
        × ((config_effect config g).calculated_instance_cnt ≡ g.calculated_instance_cnt)
  unfolding fill_config
  config_effect-build [] g = (refl, refl, refl, refl, refl, refl)
  config_effect-build (e ∷ config) g = (refl, refl, refl, refl, refl, refl)

  build_effect-lem :
      (def : Option Build) (g : Group F)
      → ((build_effect def g).build.selectors ≡ wanted_selectors def g.build.selectors)
        × ((j : String)
            → lookup j (as_map (build_effect def g).build.dependencies)
              ≡ or_else
                  (lookup j (as_map g.build.dependencies))
                  (lookup j (as_map (default_dependencies def))))
        × ((build_effect def g).id ≡ g.id)
        × ((build_effect def g).resources ≡ g.resources)
        × ((build_effect def g).instances ≡ g.instances)
        × ((build_effect def g).run ≡ g.run)
        × ((build_effect def g).calculated_instance_cnt ≡ g.calculated_instance_cnt)
  unfolding fill_build
  build_effect-lem none g = (
    no_selectors g.build.selectors,
    (λ j. no_dependencies j g.build.dependencies),
    refl,
    refl,
    refl,
    refl,
    refl,
  )
  build_effect-lem (some def) g = (
    own_selectors g.build.selectors def.selectors def refl,
    (λ j. lookup-apply_defaults j g.build.dependencies def.dependencies),
    refl,
    refl,
    refl,
    refl,
    refl,
  )

  -- PrepareForBuild leaves each group filled.
  after-IsFilled :
      (manifest : TestPlanManifest) (c : Composition) (g : Group F)
      → IsFilled manifest c g (after manifest c g)
  after-IsFilled manifest c g =
      let built = build_effect c.global.build g in
      let (build₁, id₁, resources₁, instances₁, run₁, count₁) =
        fill_builder-build c.global.builder (config_effect (config_of manifest c) built) in
      let (build₂, id₂, resources₂, instances₂, run₂, count₂) =
        config_effect-build (config_of manifest c) built in
      let (selectors, dependencies, id₃, resources₃, instances₃, run₃, count₃) =
        build_effect-lem c.global.build g in
      let same_build = build₁ ∙ build₂ in
      record {
        builder_filled = (prepared-precedence manifest c g "").1;
        selectors_filled = ap (λ (b : Build). b.selectors) same_build ∙ selectors;
        dependencies_filled =
            λ j. ap (λ (b : Build). lookup j (as_map b.dependencies)) same_build ∙ dependencies j;
        config_filled = λ k. (prepared-precedence manifest c g k).0;
        same_id = id₁ ∙ id₂ ∙ id₃;
        same_resources = resources₁ ∙ resources₂ ∙ resources₃;
        same_instances = instances₁ ∙ instances₂ ∙ instances₃;
        same_run = run₁ ∙ run₂ ∙ run₃;
        same_count = count₁ ∙ count₂ ∙ count₃;
      }

  module _ (manifest : TestPlanManifest) (c : Composition) where
    -- the heap after PrepareForBuild accepted the composition
    pub record AreFilled (heap heap' : List (Group F)) : Type 0 where
      pub size : length heap' ≡ length heap
      pub filled :
          (p : ℕ) (g : Group F)
          → Elem p c.groups
          → get_elem? heap p ≡ some g
          → (g' : Group F) × (get_elem? heap' p ≡ some g')
            × IsFilled manifest c g g'
            × (has_builder manifest g'.builder ≡ true)
      pub kept : (p : ℕ) → ¬ Elem p c.groups → get_elem? heap' p ≡ get_elem? heap p

    -- PrepareForBuild, of a plan with builders and of distinct groups, ends in one of two ways. It
    -- returns the composition with the plan's name and, for each key of the build configuration,
    -- its own value or else the manifest's; each of its groups then has its own builder,
    -- selectors, versions of dependencies and configuration values, and where it has none those
    -- that were returned or, for the selectors and dependencies, the composition's; the builder is
    -- one that the plan supports, and nothing else changed. Or some group has, after the default,
    -- a builder that the plan does not support, and it returns that error.
    pub prepare_for_build_correct :
        (heap : List (Group F))
        → is_empty manifest.builders ≡ false
        → AllInside c.groups heap
        → AllDistinct c.groups
        → ((c' : Composition) × (heap' : List (Group F)) × (◌≡◌
              {A = Fallible CompositionError Composition × List (Group F)}
              (prepare_for_build manifest c heap)
              (ok c', heap'))
            × IsReturned manifest c c'
            × AreFilled heap heap')
          ⊎ (((prepare_for_build manifest c heap).0 ≡ err (unsupported_builder c.global.builder))
              × (p : ℕ) × (g : Group F) × Elem p c.groups
              × (get_elem? heap p ≡ some g)
              × (has_builder manifest (if str_eq g.builder "" then c.global.builder else g.builder)
                  ≡ false))
    prepare_for_build_correct heap some_builder inside distinct =
        elim (prepare_for_build_total manifest c heap some_builder inside distinct) [
          | inl (heap', ran, written, supported) ↦ inl (
            with_build_config manifest c,
            heap',
            ran,
            with_build_config-IsReturned manifest c,
            record {
              size = written.size;
              filled = λ p g m at. (
                after manifest c g,
                written.written p g m at,
                after-IsFilled manifest c g,
                supported p g m at,
              );
              kept = written.kept;
            },
          )
          | inr (refused, p, g, m, at, lacks) ↦
              inr (refused, p, g, m, at, rw (← (after-IsFilled manifest c g).builder_filled) lacks)
        ]
