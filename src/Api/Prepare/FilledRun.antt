-- ===== src/Api/Prepare/FilledRun.antt =====
-- pkg/api/composition.go: what a group holds, field by field, after PrepareForRun.
use testground.Base.{
  ℕ, ◌≡◌, refl, sym, ap, ◌∙◌, String, Option, none, some, List, [], str_eq, if◌then◌else◌, arith,
  subst, eq_iff, get_elem?, length,
}
use testground.Base.Maps.{Map, lookup, lookup-add_missing, or_else}
use testground.Base.Errors.{Fallible, ok}
use testground.Task.Database.{Elem}
use testground.Api.Composition.{ConfigMap, Run, Group, Composition, CompositionError}
use testground.Api.Manifest.{TestPlanManifest, TestCase}
use testground.Api.Groups.{AllInside, AllDistinct}
use testground.Api.Prepare.{entries, fill_run, fill_params, prepare_for_run}
use testground.Api.Prepare.ForBuild.{lookup-merged_config, or_else-none}
use testground.Api.Prepare.ForRun.{
  IsRunnable, run_effect, run_prepared, with_run_config, prepare_for_run_accepts,
  prepare_for_run_checks,
}
use testground.Api.Prepare.Accepted.{
  IsAccepted, default_of, lookup-default_params, IsRunnable-IsAccepted, IsAccepted-IsRunnable,
}

abbrev default_artifact : Option Run → String
default_artifact none = ""
default_artifact (some def) = def.artifact

abbrev params_of : Option Run → Map String
params_of none = []
params_of (some def) = entries def.test_params

abbrev profiles_of : Option Run → Map String
profiles_of none = []
profiles_of (some def) = entries def.profiles

-- `g'` is `g` with what it lacks filled in, in each field that PrepareForRun fills, and the same in
-- the others
pub record IsReady {F : Type 0} (c : Composition) (tcase : TestCase) (g g' : Group F) : Type 0 where
  pub artifact_filled :
      g'.run.artifact
      ≡ (if str_eq g.run.artifact "" then default_artifact c.global.run else g.run.artifact)
  pub params_filled :
      (k : String)
      → lookup k (entries g'.run.test_params)
        ≡ or_else
            (lookup k (entries g.run.test_params))
            (or_else (lookup k (params_of c.global.run)) (default_of (lookup k tcase.parameters)))
  pub profiles_filled :
      (k : String)
      → lookup k (entries g'.run.profiles)
        ≡ or_else (lookup k (entries g.run.profiles)) (lookup k (profiles_of c.global.run))
  pub same_id : g'.id ≡ g.id
  pub same_resources : g'.resources ≡ g.resources
  pub same_instances : g'.instances ≡ g.instances
  pub same_builder : g'.builder ≡ g.builder
  pub same_config : g'.build_config ≡ g.build_config
  pub same_build : g'.build ≡ g.build
  pub same_count : g'.calculated_instance_cnt ≡ g.calculated_instance_cnt

-- the composition that is returned: with the name of the plan, and the configuration filled in
pub record IsRunReturned (manifest : TestPlanManifest) (c c' : Composition) : Type 0 where
  pub config : Option ConfigMap
  pub composition :
      c' ≡ record c { global = record c.global { plan = manifest.name; run_config = config } }
  pub config_filled :
      (k : String)
      → lookup k (entries config)
        ≡ or_else
            (lookup k (entries c.global.run_config))
            (lookup k (entries (lookup c.global.runner manifest.runners)))

or_else_assoc : {A : Type 0} (a b c : Option A) → or_else (or_else a b) c ≡ or_else a (or_else b c)
or_else_assoc none b c = refl
or_else_assoc (some x) b c = refl

with_run_config-IsReturned :
    (manifest : TestPlanManifest) (c c' : Composition)
    → c' ≡ with_run_config manifest c
    → IsRunReturned manifest c c'
with_run_config-IsReturned manifest c c' same = record {
  config = (with_run_config manifest c).global.run_config;
  composition = same;
  config_filled = lookup-merged_config manifest.runners c.global.runner c.global.run_config;
}

module _ {F : Type 0} where
  run_effect-lem :
      (def : Option Run) (g : Group F) (k : String)
      → ((run_effect def g).run.artifact
          ≡ (if str_eq g.run.artifact "" then default_artifact def else g.run.artifact))
        × (lookup k (entries (run_effect def g).run.test_params)
            ≡ or_else (lookup k (entries g.run.test_params)) (lookup k (params_of def)))
        × (lookup k (entries (run_effect def g).run.profiles)
            ≡ or_else (lookup k (entries g.run.profiles)) (lookup k (profiles_of def)))
  unfolding fill_run lookup
  run_effect-lem none g k = (
    own_artifact g.run.artifact,
    sym (or_else-none (lookup k (entries g.run.test_params))),
    sym (or_else-none (lookup k (entries g.run.profiles))),
  )
    where
      own_artifact : (own : String) → own ≡ (if str_eq own "" then "" else own)
      own_artifact own = ground (arith, eq_iff own "")
  run_effect-lem (some def) g k = (
    refl,
    lookup-add_missing k (entries def.test_params) (entries g.run.test_params),
    lookup-add_missing k (entries def.profiles) (entries g.run.profiles),
  )

  -- the fields that PrepareForRun leaves alone
  Same : Group F → Group F → Type 0
  Same g g' =
      (g'.id ≡ g.id)
      × (g'.resources ≡ g.resources)
      × (g'.instances ≡ g.instances)
      × (g'.builder ≡ g.builder)
      × (g'.build_config ≡ g.build_config)
      × (g'.build ≡ g.build)
      × (g'.calculated_instance_cnt ≡ g.calculated_instance_cnt)

  run_prepared-Same :
      (def : Option Run) (defaults : Map String) (g : Group F)
      → Same g (run_prepared def defaults g)
  unfolding fill_run fill_params Same
  run_prepared-Same none defaults g = (refl, refl, refl, refl, refl, refl, refl)
  run_prepared-Same (some def) defaults g = (refl, refl, refl, refl, refl, refl, refl)

  -- PrepareForRun leaves each group ready.
  run_prepared-IsReady :
      (manifest : TestPlanManifest) (c : Composition) (r : IsRunnable manifest c) (g : Group F)
      → IsReady c r.tcase g (run_prepared c.global.run r.defaults g)
  unfolding fill_params Same
  run_prepared-IsReady manifest c r g =
      let (id, resources, instances, builder, config, build, count) =
        run_prepared-Same c.global.run r.defaults g in
      let (artifact, _, _) = run_effect-lem c.global.run g "" in
      record {
        artifact_filled = artifact;
        params_filled = λ k.
            let (_, params, _) = run_effect-lem c.global.run g k in
            let (defaulted, _) = lookup-default_params r.tcase.parameters r.defaults k r.encodes in
            lookup-add_missing k r.defaults (entries (run_effect c.global.run g).run.test_params)
            ∙ rw params (
                rw defaulted (
                  or_else_assoc (lookup k (entries g.run.test_params))
                    (lookup k (params_of c.global.run)) _));
        profiles_filled = λ k. (run_effect-lem c.global.run g k).2;
        same_id = id;
        same_resources = resources;
        same_instances = instances;
        same_builder = builder;
        same_config = config;
        same_build = build;
        same_count = count;
      }

  module _ (manifest : TestPlanManifest) (c : Composition) where
    -- the heap after PrepareForRun accepted the composition
    pub record AreReady (tcase : TestCase) (heap heap' : List (Group F)) : Type 0 where
      pub size : length heap' ≡ length heap
      pub ready :
          (p : ℕ) (g : Group F)
          → Elem p c.groups
          → get_elem? heap p ≡ some g
          → (g' : Group F) × (get_elem? heap' p ≡ some g') × IsReady c tcase g g'
      pub kept : (p : ℕ) → ¬ Elem p c.groups → get_elem? heap' p ≡ get_elem? heap p

    returned-AreReady :
        (heap : List (Group F)) (r : IsRunnable manifest c)
        → AllInside c.groups heap
        → AllDistinct c.groups
        → (heap' : List (Group F)) × (◌≡◌
            {A = Fallible CompositionError Composition × List (Group F)}
            (prepare_for_run manifest c heap)
            (ok (with_run_config manifest c), heap'))
          × AreReady r.tcase heap heap'
    returned-AreReady heap r inside distinct =
        let (heap', ran, written) = prepare_for_run_accepts manifest c heap r inside distinct in
        (
          heap',
          ran,
          record {
            size = written.size;
            ready = λ p g m at. (
              run_prepared c.global.run r.defaults g,
              written.written p g m at,
              run_prepared-IsReady manifest c r g,
            );
            kept = written.kept;
          },
        )

    -- What PrepareForRun returns, for distinct groups, was acceptable: the test case is the plan's
    -- first one with the name, some runner of the plan does not sort before the composition's, the instances are
    -- within the bounds and the defaults can be encoded. The composition has the plan's name and,
    -- for each key of the run configuration, its own value or else the manifest's; each of its
    -- groups has its own artifact, parameters and profiles, and where it lacks one that of the
    -- composition, or else, for a parameter, the default of the test case; nothing else changed.
    pub prepare_for_run_correct :
        (heap heap' : List (Group F)) (c' : Composition)
        → AllInside c.groups heap
        → AllDistinct c.groups
        → ◌≡◌ {A = Fallible CompositionError Composition × List (Group F)}
            (prepare_for_run manifest c heap)
            (ok c', heap')
        → (tcase : TestCase) × IsAccepted manifest c tcase
          × IsRunReturned manifest c c'
          × AreReady tcase heap heap'
    prepare_for_run_correct heap heap' c' inside distinct h =
        let (r, same) = prepare_for_run_checks manifest c heap heap' c' h in
        let (heap'', ran, ready) = returned-AreReady heap r inside distinct in
        let end : heap'' ≡ heap' =
          ap (λ (x : Fallible CompositionError Composition × List (Group F)). x.1) (sym ran ∙ h) in
        (
          r.tcase,
          IsRunnable-IsAccepted manifest c r,
          with_run_config-IsReturned manifest c c' same,
          subst (AreReady r.tcase heap) end ready,
        )

    -- PrepareForRun, for distinct groups, returns a composition whose test case is the plan's first
    -- one with the name, for which some runner of the plan does not sort before its own, whose
    -- instances are within the bounds and of whose test case the defaults can be encoded. What it
    -- returns has the plan's name and the run configuration with the manifest's values for the keys
    -- that it lacked; each group has the artifact, the parameters and the profiles of the
    -- composition, and the default parameters of the test case, where it lacked them, and nothing
    -- else changed.
    pub prepare_for_run_returns :
        (heap : List (Group F)) (tcase : TestCase)
        → AllInside c.groups heap
        → AllDistinct c.groups
        → IsAccepted manifest c tcase
        → (c' : Composition) × (heap' : List (Group F)) × (◌≡◌
            {A = Fallible CompositionError Composition × List (Group F)}
            (prepare_for_run manifest c heap)
            (ok c', heap'))
          × IsRunReturned manifest c c'
          × AreReady tcase heap heap'
    prepare_for_run_returns heap tcase inside distinct a =
        let (r, same) = IsAccepted-IsRunnable manifest c tcase a in
        let (heap', ran, ready) = returned-AreReady heap r inside distinct in
        (
          with_run_config manifest c,
          heap',
          ran,
          with_run_config-IsReturned manifest c _ refl,
          subst (λ (x : TestCase). AreReady x heap heap') same ready,
        )
