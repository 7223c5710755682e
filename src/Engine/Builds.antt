-- ===== src/Engine/Builds.antt =====
-- pkg/engine/supervisor.go: doBuild, which builds the groups of a composition that have one build
-- key by one job. The builders, the validator and the encoder of the keys are parameters. A job is
-- a function of its input here, so the order in which the jobs end decides only which error is
-- returned when several fail.
pub mod Index
pub mod Jobs
pub mod Outputs
pub mod Whole
use testground.Base.{
  ℕ, suc, String, Bool, not, ◌&&◌, Option, none, some, List, [], ◌∷◌, ◌++◌, ◌==◌, if◌then◌else◌,
  length, get_elem?, set, map,
}
use testground.Base.Maps.{Map, lookup, insert}
use testground.Base.Errors
use testground.Base.Errors.{Fallible, ok, err, panic, fail_if}
use testground.Base.Actions.{Action, ◌>>=◌}
use testground.Api.Composition.{ConfigMap, Dependency, Group, Composition, CompositionError}
use testground.Api.Healthcheck.{HealthcheckReport, fixes_succeeded}
use testground.Api.Manifest.{TestPlanManifest}
use testground.Api.Build.{KeyDocument, group_key}
use testground.Api.Groups.{read_all}
use testground.Api.Prepare.{prepare_for_build, list_builders}
use testground.Api.Validate.{validate_for_build}

-- the errors that doBuild and doRun return
pub data EngineError : Type 0 where
  composition : CompositionError → EngineError
  unknown_builder : String → EngineError  -- "unrecognized builder: %s"
  healthcheck_errored : String → EngineError
  fixes_failed : EngineError
  no_copies : EngineError  -- the source directories could not be copied
  bad_config : String → EngineError
  build_failed : String → EngineError
  run_failed : String → EngineError

-- which directory a job builds from: the uploaded one, or the copy with a number
pub data SourceDir : Type 0 where
  uploaded : SourceDir
  copied : ℕ → SourceDir

-- api.BuildInput, what the builder is given
pub record BuildInput : Type 0 where
  pub test_plan : String
  pub selectors : List String
  pub dependencies : Map (String × String)  -- module, to target and version
  pub build_config : ConfigMap
  pub sources : SourceDir

pub record BuildOutput : Type 0 where
  pub builder_id : String
  pub artifact_path : String

-- api.Builder, and api.Healthchecker where it is one
pub record Builder : Type 0 where
  pub id : String
  pub healthcheck : Option (Fallible String HealthcheckReport)
  pub coalesce : List (Option ConfigMap) → Fallible String ConfigMap
  pub build : BuildInput → Fallible String String  -- the path of the artifact

pub record BuildWorld (F : Type 0) : Type 0 where
  pub builders : Map Builder
  pub env_config : String → Option ConfigMap  -- of .env.toml
  pub is_valid_except : Composition → List (Group F) → Bool
  pub encode : KeyDocument → String  -- `json.Marshal` of a build key
  pub copies : Bool  -- the copies of the sources succeed
  pub clean : String → String  -- `clean`, by strings.Replace

-- an error of pkg/api, returned as it is
abbrev pub of_composition {ℓ} : {A : Type ℓ} → Fallible CompositionError A → Fallible EngineError A
of_composition (ok a) = ok a
of_composition (err e) = err (EngineError.composition e)
of_composition panic = panic

-- the checks on the report of a healthcheck with fixes
unfoldable pub check_health :
    Option (Fallible String HealthcheckReport) → Fallible EngineError (Unit {0})
check_health none = ok tt
check_health (some (ok rep)) = fail_if (not (fixes_succeeded rep)) EngineError.fixes_failed
check_health (some (err e)) = err (EngineError.healthcheck_errored e)
check_health (some panic) = panic

abbrev pub or_unknown : String → Option Builder → Fallible EngineError Builder
or_unknown b none = err (EngineError.unknown_builder b)
or_unknown b (some bm) = ok bm

-- `e.builders[builder]` where it is there: a nil interface panics
abbrev pub deref_builder : Option Builder → Fallible EngineError Builder
deref_builder none = panic
deref_builder (some bm) = ok bm

-- the loops that validate the builders
unfoldable pub check_known : Map Builder → List String → Fallible EngineError (Unit {0})
check_known builders [] = ok tt
check_known builders (b ∷ bs) =
    Errors.◌>>=◌ (or_unknown b (lookup b builders)) (λ _. check_known builders bs)

unfoldable pub check_builders_health : Map Builder → List String → Fallible EngineError (Unit {0})
unfolding check_health
check_builders_health builders [] = ok tt
check_builders_health builders (b ∷ bs) =
    Errors.◌>>=◌ (deref_builder (lookup b builders))
      (λ bm. Errors.◌>>◌ (check_health bm.healthcheck) (check_builders_health builders bs))

abbrev pub of_key : Fallible String KeyDocument → Fallible EngineError KeyDocument
of_key (ok k) = ok k
of_key (err e) = panic
of_key panic = panic

abbrev pub indices_of : Option (List ℕ) → List ℕ
indices_of none = []
indices_of (some is) = is

-- `uniq[k] = append(uniq[k], idx)`, group after group
unfoldable pub index_groups :
    {F : Type 0}
    → (KeyDocument → String)
    → List (Group F)
    → ℕ
    → Map (List ℕ)
    → Fallible EngineError (Map (List ℕ))
index_groups encode [] idx uniq = ok uniq
index_groups encode (g ∷ gs) idx uniq = Errors.◌>>=◌ (of_key (group_key g)) (λ k.
    index_groups encode gs (suc idx)
      (insert (encode k) (indices_of (lookup (encode k) uniq) ++ idx ∷ []) uniq))

abbrev pub dependency_targets : List Dependency → Map (String × String) → Map (String × String)
dependency_targets [] deps = deps
dependency_targets (dep ∷ ds) deps =
    dependency_targets ds (insert dep.module_path (dep.target, dep.version) deps)

-- the sources of the job with the number `cnt`
abbrev pub source_of : ℕ → ℕ → SourceDir
source_of uniqcnt cnt = if uniqcnt == 1 then SourceDir.uploaded else SourceDir.copied cnt

abbrev pub lift_build :
    (String → EngineError) → Fallible String String → Fallible EngineError String
lift_build e (ok s) = ok s
lift_build e (err x) = err (e x)
lift_build e panic = panic

abbrev pub lift_config : Fallible String ConfigMap → Fallible EngineError ConfigMap
lift_config (ok c) = ok c
lift_config (err x) = err (EngineError.bad_config x)
lift_config panic = panic

module _ {F : Type 0} (world : BuildWorld F) where
  -- `comp.Groups[idxs[0]]`
  abbrev pub first_group : List (Group F) → List ℕ → Fallible EngineError (Group F)
  first_group grps [] = panic
  first_group grps (i ∷ is) = elim (get_elem? grps i) [ none ↦ panic | some g ↦ ok g ]

  -- the job of one build key
  unfoldable pub build_job :
      String → List (Group F) → SourceDir → List ℕ → Fallible EngineError BuildOutput
  build_job plan grps src idxs = Errors.◌>>=◌ (first_group grps idxs) (λ grp.
      Errors.◌>>=◌ (deref_builder (lookup grp.builder world.builders)) (λ bm.
        Errors.◌>>=◌
          (lift_config (bm.coalesce (world.env_config grp.builder ∷ grp.build_config ∷ [])))
          (λ obj.
            Errors.◌>>=◌
              (lift_build EngineError.build_failed (
                bm.build (record {
                  test_plan = plan;
                  selectors = grp.build.selectors;
                  dependencies = dependency_targets grp.build.dependencies [];
                  build_config = obj;
                  sources = src;
                })))
              (λ path. ok (record { builder_id = bm.id; artifact_path = path })))))

  -- `for _, idx := range uniq[key] { ress[idx] = res }`
  abbrev pub assign : List ℕ → BuildOutput → List (Option BuildOutput) → List (Option BuildOutput)
  assign [] res ress = ress
  assign (idx ∷ idxs) res ress = assign idxs res (set ress idx (some res))

  -- the jobs, and the wait for them
  unfoldable pub run_jobs :
      String
      → List (Group F)
      → ℕ
      → Map (List ℕ)
      → ℕ
      → List (Option BuildOutput)
      → Fallible EngineError (List (Option BuildOutput))
  run_jobs plan grps uniqcnt [] cnt ress = ok ress
  run_jobs plan grps uniqcnt ((key, idxs) ∷ uniq) cnt ress =
      Errors.◌>>=◌ (build_job plan grps (source_of uniqcnt cnt) idxs)
        (λ res. run_jobs plan grps uniqcnt uniq (suc cnt) (assign idxs res ress))

  abbrev pub no_outputs : List (Group F) → List (Option BuildOutput)
  no_outputs grps = map (λ _. none) grps

  -- from the unique build keys on
  unfoldable pub build_groups :
      String → List (Group F) → Fallible EngineError (List (Option BuildOutput))
  build_groups plan grps = Errors.◌>>=◌ (index_groups world.encode grps 0 []) (λ uniq.
      Errors.◌>>◌ (fail_if (not (length uniq == 1) && not world.copies) EngineError.no_copies)
        (run_jobs plan grps (length uniq) uniq 0 (no_outputs grps)))

  -- PrepareForBuild, which changes the groups
  abbrev pub prepare :
      TestPlanManifest → Composition → Action (List (Group F)) EngineError Composition
  prepare manifest c heap =
      let (r, heap') = prepare_for_build manifest c heap in (of_composition r, heap')

  -- from the builders that the groups use on
  abbrev pub build_with :
      Composition → List (Group F) → List String → Fallible EngineError (List (Option BuildOutput))
  build_with comp heap used = Errors.◌>>◌ (check_known world.builders used) (
      Errors.◌>>◌ (check_builders_health world.builders used) (
        Errors.◌>>=◌ (of_composition (read_all comp.groups heap))
          (build_groups (world.clean comp.global.plan))))

  -- from the prepared composition on
  unfoldable pub build_prepared :
      Composition → List (Group F) → Fallible EngineError (List (Option BuildOutput))
  build_prepared comp heap =
      Errors.◌>>◌ (of_composition (validate_for_build world.is_valid_except comp heap))
        (Errors.◌>>=◌ (of_composition (list_builders comp heap)) (build_with comp heap))

  -- doBuild
  unfoldable pub do_build :
      TestPlanManifest
      → Composition
      → Action (List (Group F)) EngineError (List (Option BuildOutput))
  unfolding build_prepared
  do_build manifest c = do comp ← prepare manifest c; λ heap. (build_prepared comp heap, heap)
