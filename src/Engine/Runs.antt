-- ===== src/Engine/Runs.antt =====
-- pkg/engine/supervisor.go: doRun, which builds the groups that want it, prepares and validates
-- the composition, and hands it to a runner. The runners are parameters.
use testground.Base.{ℕ, suc, String, Bool, Option, none, some, List, [], ◌∷◌, set, get_elem?, map}
use testground.Base.Int.{ℤ, pos, negsuc}
use testground.Base.Maps.{Map, lookup}
use testground.Base.Errors
use testground.Base.Errors.{Fallible, ok, err, panic}
use testground.Base.Actions.{Action, pure, lift, ◌>>=◌, ◌>>◌}
use testground.Task.{Result}
use testground.Api.Composition.{
  Float64, ConfigMap, Group, Resources, Composition, CompositionError, to_int,
}
use testground.Api.Manifest.{TestPlanManifest}
use testground.Api.Groups.{read_all}
use testground.Api.Healthcheck.{HealthcheckReport}
use testground.Api.Prepare.{prepare_for_run, pick_groups}
use testground.Api.Validate.{validate_for_run}
use testground.Engine.Builds.{
  EngineError, of_composition, lift_config, check_health, BuildOutput, BuildWorld, do_build,
  run_failed,
}

-- api.RunGroup
pub record RunGroup : Type 0 where
  pub id : String
  pub instances : ℤ
  pub artifact_path : String
  pub parameters : Option (Map String)
  pub resources : Resources
  pub profiles : Option (Map String)

-- api.RunInput
pub record RunInput : Type 0 where
  pub run_id : String
  pub runner_config : ConfigMap
  pub test_plan : String
  pub test_case : String
  pub total_instances : ℤ
  pub groups : List RunGroup
  pub disable_metrics : Bool

-- api.Runner, and api.Healthchecker where it is one
pub record Runner : Type 0 where
  pub healthcheck : Option (Fallible String HealthcheckReport)
  pub coalesce : List (Option ConfigMap) → Fallible String ConfigMap
  pub run : RunInput → Fallible String Result

pub record RunWorld (float : Float64) : Type 1 where
  pub build_world : BuildWorld float.F
  pub runners : Map Runner
  pub env_config : String → Option ConfigMap
  pub is_valid : Composition → List (Group float.F) → Bool

abbrev pub deref_runner : Option Runner → Fallible EngineError Runner
deref_runner none = panic
deref_runner (some r) = ok r

abbrev pub lift_run : Fallible String Result → Fallible EngineError Result
lift_run (ok r) = ok r
lift_run (err e) = err (run_failed e)
lift_run panic = panic

-- `bout[i].ArtifactPath`
abbrev pub artifact_of : Option (Option BuildOutput) → Fallible EngineError String
artifact_of none = panic
artifact_of (some none) = panic
artifact_of (some (some out)) = ok out.artifact_path

-- the address of `input.Composition.Groups[groupIdx]`
abbrev pub address_at : List ℕ → ℤ → Fallible EngineError ℕ
address_at groups (pos i) = elim (get_elem? groups i) [ none ↦ panic | some p ↦ ok p ]
address_at groups (negsuc i) = panic

module _ {F : Type 0} where
  abbrev pub with_artifact : String → Group F → Group F
  with_artifact path g = record g { run = record g.run { artifact = path } }

  abbrev pub write_artifact : String → ℕ → Action (List (Group F)) EngineError (Unit {0})
  write_artifact path p heap = elim (get_elem? heap p) [
    | none ↦ (panic, heap)
    | some g ↦ (ok tt, set heap p (with_artifact path g))
  ]

  -- the loop that writes the artifacts back
  unfoldable pub write_artifacts :
      List ℕ
      → List (Option BuildOutput)
      → List ℤ
      → ℕ
      → Action (List (Group F)) EngineError (Unit {0})
  write_artifacts groups bout [] i = pure tt
  write_artifacts groups bout (idx ∷ idxs) i = do
    p ← lift (address_at groups idx)
    path ← lift (artifact_of (get_elem? bout i))
    write_artifact path p
    write_artifacts groups bout idxs (suc i)

  abbrev pub run_group : Group F → RunGroup
  run_group grp = record {
    id = grp.id;
    instances = to_int grp.calculated_instance_cnt;
    artifact_path = grp.run.artifact;
    parameters = grp.run.test_params;
    resources = grp.resources;
    profiles = grp.run.profiles;
  }

module _ (float : Float64) (world : RunWorld float) where
  -- the builds before the run
  unfoldable pub build_wanted :
      TestPlanManifest → Composition → List ℤ → Action (List (Group float.F)) EngineError (Unit {0})
  unfolding write_artifacts
  build_wanted manifest c [] = pure tt
  build_wanted manifest c (idx ∷ idxs) = do
    bcomp ← lift (of_composition (pick_groups c (idx ∷ idxs)))
    bout ← do_build world.build_world manifest bcomp
    write_artifacts c.groups bout (idx ∷ idxs) 0

  abbrev pub of_api {ℓ} :
      {A : Type ℓ}
      → Action (List (Group float.F)) CompositionError A
      → Action (List (Group float.F)) EngineError A
  of_api m heap = let (r, heap') = m heap in (of_composition r, heap')

  -- what the runner is given
  abbrev pub run_input : String → Composition → ConfigMap → List (Group float.F) → RunInput
  run_input id comp obj grps = record {
    run_id = id;
    runner_config = obj;
    test_plan = world.build_world.clean comp.global.plan;
    test_case = world.build_world.clean comp.global.case;
    total_instances = to_int comp.global.total_instances;
    groups = map run_group grps;
    disable_metrics = comp.global.disable_metrics;
  }

  -- from the runner on
  unfoldable pub start_run :
      String → Composition → List (Group float.F) → Fallible EngineError Result
  start_run id comp heap =
      Errors.◌>>=◌ (deref_runner (lookup comp.global.runner world.runners)) (λ run.
        Errors.◌>>◌ (check_health run.healthcheck) (
          Errors.◌>>=◌
            (lift_config
              (run.coalesce (world.env_config comp.global.runner ∷ comp.global.run_config ∷ [])))
            (λ obj.
              Errors.◌>>=◌ (of_composition (read_all comp.groups heap))
                (λ grps. lift_run (run.run (run_input id comp obj grps))))))

  -- from the prepared composition on
  abbrev pub run_validated : String → Composition → Action (List (Group float.F)) EngineError Result
  run_validated id comp =
      of_api (validate_for_run float world.is_valid comp) >> λ heap. (start_run id comp heap, heap)

  -- from the end of the builds on
  abbrev pub run_built :
      String → TestPlanManifest → Composition → Action (List (Group float.F)) EngineError Result
  run_built id manifest c = of_api (prepare_for_run manifest c) >>= run_validated id

  -- doRun
  unfoldable pub do_run :
      String
      → TestPlanManifest
      → Composition
      → List ℤ
      → Action (List (Group float.F)) EngineError Result
  unfolding build_wanted start_run
  do_run id manifest c build_groups =
      build_wanted manifest c build_groups >> run_built id manifest c
