-- ===== src/Tests/Builds.antt =====
-- The builds and the run of a small composition.
use testground.Base.{
  ℕ, zero, suc, ◌≡◌, ◌≢◌, refl, String, true, Option, none, some, List, [], ◌∷◌, All, arith,
}
use testground.Base.Int.{pos}
use testground.Base.Maps.{lookup, insert, add_missing}
use testground.Base.Errors.{Fallible, ok}
use testground.Task.{Result}
use testground.Task.Bytes.{before}
use testground.Task.Payload.{Outcome}
use testground.Api.Composition.{Group}
use testground.Api.Build.{group_key, sort_by, insert_sorted}
use testground.Api.Manifest.{keys, has_builder, contains, test_case_by_name}
use testground.Api.Groups.{read_all, for_each}
use testground.Api.Prepare.{
  prepare_for_build, prepare_for_run, list_builders, search_strings, default_params, refuses_runner,
  fill_build, fill_config, fill_builder, fill_run, fill_params, pick_groups,
}
use testground.Api.Validate.{
  check_ids, check_builders, validate_groups, validate_for_build, validate_instances,
  count_instances, validate_for_run,
}
use testground.Engine.Builds.{
  EngineError, BuildOutput, BuildWorld, Builder, check_health, check_known, check_builders_health,
  index_groups, build_job, run_jobs, build_groups, build_prepared, do_build,
}
use testground.Engine.Builds.Jobs.{AllBuild}
use testground.Engine.Builds.Outputs.{AreOutputs, build_groups-AreOutputs, build_groups_succeeds}
use testground.Engine.Builds.Whole.{IsBuilt, do_build_correct}
use testground.Engine.Runs.{RunWorld, build_wanted, write_artifacts, start_run, do_run}
use testground.Tests.Compositions.{percent, group, composition, heap, manifest}

abbrev builder : String → Builder
builder name = record {
  id = name;
  healthcheck = none;
  coalesce = λ cs. ok [];
  build = λ input. ok name;
}

abbrev world : BuildWorld ℕ
world = record {
  builders = ("docker:go", builder "docker:go") ∷ ("exec:go", builder "exec:go") ∷ [];
  env_config = λ b. none;
  is_valid_except = λ c gs. true;
  encode = λ k. k.builder;
  copies = true;
  clean = λ s. s;
}

-- two groups that share a build, and one that does not
abbrev grps : List (Group ℕ)
grps = group "servers" "docker:go" 2 ∷ group "clients" "exec:go" 3 ∷ group "late" "docker:go" 1 ∷ []

abbrev output : String → Option BuildOutput
output name = some (record { builder_id = name; artifact_path = name })

builds :
    build_groups world "network" grps
    ≡ ok (output "docker:go" ∷ output "exec:go" ∷ output "docker:go" ∷ [])
unfolding build_groups index_groups group_key run_jobs build_job lookup insert
builds = refl

build_groups-AreOutputs_example :
    AreOutputs world "network" grps
      (output "docker:go" ∷ output "exec:go" ∷ output "docker:go" ∷ [])
build_groups-AreOutputs_example =
    build_groups-AreOutputs world "network" grps
      (output "docker:go" ∷ output "exec:go" ∷ output "docker:go" ∷ []) builds

every_builder : All (λ (g : Group ℕ). g.builder ≢ "") grps
every_builder = ((λ e. cc e), ((λ e. cc e), ((λ e. cc e), tt)))

all_build : AllBuild world "network" grps
unfolding build_job lookup
all_build zero h src = (record { builder_id = "docker:go"; artifact_path = "docker:go" }, refl)
all_build (suc zero) h src = (record { builder_id = "exec:go"; artifact_path = "exec:go" }, refl)
all_build (suc (suc zero)) h src =
    (record { builder_id = "docker:go"; artifact_path = "docker:go" }, refl)
all_build (suc (suc (suc n))) h src = absurd (omega arith)

build_groups_succeeds_example :
    (ress : List (Option BuildOutput)) × (build_groups world "network" grps ≡ ok ress)
    × AreOutputs world "network" grps ress
build_groups_succeeds_example =
    build_groups_succeeds world "network" grps every_builder all_build refl

abbrev after_build : List (Group ℕ)
after_build = (do_build world manifest composition heap).1

does_build :
    ◌≡◌ {A = Fallible EngineError (List (Option BuildOutput)) × List (Group ℕ)}
      (do_build world manifest composition heap)
      (ok (output "docker:go" ∷ output "exec:go" ∷ []), after_build)
unfolding do_build build_prepared build_groups index_groups group_key run_jobs build_job lookup
    insert prepare_for_build validate_for_build list_builders read_all for_each keys has_builder
    contains sort_by insert_sorted check_known check_builders_health check_health check_ids
    check_builders validate_groups fill_build fill_config fill_builder add_missing before
does_build = refl

do_build_correct_example :
    IsBuilt world manifest composition heap (output "docker:go" ∷ output "exec:go" ∷ []) after_build
do_build_correct_example =
    do_build_correct world manifest composition heap after_build
      (output "docker:go" ∷ output "exec:go" ∷ []) does_build

abbrev run_world : RunWorld percent
run_world = record {
  build_world = world;
  runners =
      (
        "local:docker",
        record {
          healthcheck = none;
          coalesce = λ cs. ok [];
          run = λ input. ok (Result.runner_result Outcome.success input.test_case);
        },
      )
      ∷ [];
  env_config = λ r. none;
  is_valid = λ c gs. true;
}

-- the second group is built before the run
abbrev after_run : List (Group ℕ)
after_run = (do_run percent run_world "id" manifest composition (pos 1 ∷ []) heap).1

does_run :
    ◌≡◌ {A = Fallible EngineError Result × List (Group ℕ)}
      (do_run percent run_world "id" manifest composition (pos 1 ∷ []) heap)
      (ok (Result.runner_result Outcome.success "ping-pong"), after_run)
unfolding do_run build_wanted write_artifacts start_run pick_groups prepare_for_run validate_for_run
    count_instances validate_instances test_case_by_name search_strings default_params
    refuses_runner fill_run fill_params do_build build_prepared build_groups index_groups group_key
    run_jobs build_job lookup insert prepare_for_build validate_for_build list_builders read_all
    for_each keys has_builder contains sort_by insert_sorted check_known check_builders_health
    check_health check_ids check_builders validate_groups fill_build fill_config fill_builder
    add_missing before
does_run = refl
