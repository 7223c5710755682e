-- ===== src/Engine/Components.antt =====
-- pkg/engine/engine.go: NewEngine, and the requests that the engine passes on to a builder or a
-- runner. What these do to the world is theirs; a component that lacks an interface has none of its
-- function.
use testground.Base.{
  ◌≡◌, refl, ap, ◌∙◌, String, Bool, true, false, Option, none, some, List, [], ◌∷◌, if◌then◌else◌,
  str_eq,
}
use testground.Base.Maps.{Map, lookup, insert, or_else, lookup-insert}
use testground.Base.Errors.{Fallible, ok, err, panic}
use testground.Base.Actions.{Action, lift, ◌>>=◌}
use testground.Task.{Task}
use testground.Task.Errors.{TaskError}
use testground.Api.Composition.{ConfigMap}
use testground.Api.Healthcheck.{HealthcheckReport}

pub data RequestError : Type 0 where
  get_failed : String → TaskError → RequestError
  unknown_runner : String → RequestError
  unknown_component : String → RequestError
  not_terminatable : String → RequestError
  no_healthchecks : String → RequestError
  unrecognized_builder : String → RequestError
  coalescing_failed : String → RequestError
  failed : String → RequestError

-- api.ComponentType; any other has no component
pub data ComponentType : Type 0 where
  runner_type builder_type : ComponentType
  other : String → ComponentType

pub record Builder (W : Type 0) : Type 0 where
  pub id : String
  pub terminate_all : Option (Action W RequestError (Unit {0}))
  pub purge : String → Action W RequestError (Unit {0})

-- api.CollectionInput
pub record CollectionInput : Type 0 where
  pub runner_id : String
  pub run_id : String
  pub runner_config : ConfigMap

pub record Runner (W : Type 0) : Type 0 where
  pub id : String
  pub terminate_all : Option (Action W RequestError (Unit {0}))
  pub healthcheck : Option (Bool → Action W RequestError HealthcheckReport)
  pub coalesce : List (Option ConfigMap) → Fallible String ConfigMap
  pub collect_outputs : CollectionInput → Action W RequestError (Unit {0})

pub record Engine (W : Type 0) : Type 0 where
  pub builders : Map (Builder W)
  pub runners : Map (Runner W)
  pub env_runners : String → Option ConfigMap

-- `for _, b := range cfg.Builders { e.builders[b.ID()] = b }`, and the same for runners
unfoldable pub register : {C : Type 0} → (C → String) → List C → Map C → Map C
register id [] m = m
register id (c ∷ cs) m = register id cs (insert (id c) c m)

abbrev or_error {ℓ} : {A : Type ℓ} → RequestError → Option A → Fallible RequestError A
or_error e none = err e
or_error e (some a) = ok a

abbrev of_get : String → Fallible TaskError Task → Fallible RequestError Task
of_get id (ok t) = ok t
of_get id (err x) = err (get_failed id x)
of_get id panic = panic

abbrev of_coalesce : Fallible String ConfigMap → Fallible RequestError ConfigMap
of_coalesce (ok c) = ok c
of_coalesce (err x) = err (coalescing_failed x)
of_coalesce panic = panic

module _ {W : Type 0} where
  -- the maps of NewEngine
  unfoldable pub new_engine :
      List (Builder W) → List (Runner W) → (String → Option ConfigMap) → Engine W
  unfolding register
  new_engine bs rs env = record {
    builders = register (λ (b : Builder W). b.id) bs [];
    runners = register (λ (r : Runner W). r.id) rs [];
    env_runners = env;
  }

  -- BuilderByName and RunnerByName
  unfoldable pub builder_by_name : String → Engine W → Option (Builder W)
  builder_by_name name e = lookup name e.builders

  unfoldable pub runner_by_name : String → Engine W → Option (Runner W)
  runner_by_name name e = lookup name e.runners

  -- the component of a reference, by whether it can be terminated
  abbrev component_of :
      ComponentType → String → Engine W → Option (Option (Action W RequestError (Unit {0})))
  component_of runner_type ref e = elim (lookup ref e.runners) [
    | none ↦ none
    | some r ↦ some r.terminate_all
  ]
  component_of builder_type ref e = elim (lookup ref e.builders) [
    | none ↦ none
    | some b ↦ some b.terminate_all
  ]
  component_of (ComponentType.other t) ref e = none

  -- DoTerminate
  unfoldable pub do_terminate : ComponentType → String → Engine W → Action W RequestError (Unit {0})
  do_terminate ctype ref e = do
    component ← lift (or_error (unknown_component ref) (component_of ctype ref e))
    terminate ← lift (or_error (not_terminatable ref) component)
    terminate

  -- DoHealthcheck
  unfoldable pub do_healthcheck : String → Bool → Engine W → Action W RequestError HealthcheckReport
  do_healthcheck runner fix e = do
    run ← lift (or_error (unknown_runner runner) (lookup runner e.runners))
    check ← lift (or_error (no_healthchecks runner) run.healthcheck)
    check fix

  -- DoBuildPurge
  unfoldable pub do_build_purge : String → String → Engine W → Action W RequestError (Unit {0})
  do_build_purge builder plan e = do
    bm ← lift (or_error (unrecognized_builder builder) (lookup builder e.builders))
    bm.purge plan

  -- DoCollectOutputs, with the task that the storage has for the run
  unfoldable pub do_collect_outputs :
      String → Fallible TaskError Task → Engine W → Action W RequestError (Unit {0})
  do_collect_outputs run_id found e = do
    t ← lift (of_get run_id found)
    run ← lift (or_error (unknown_runner t.runner) (lookup t.runner e.runners))
    obj ← lift (of_coalesce (run.coalesce (e.env_runners t.runner ∷ [])))
    run.collect_outputs (record { runner_id = t.runner; run_id = run_id; runner_config = obj })

-- the last component of a name
unfoldable pub last_with : {C : Type 0} → (C → String) → String → List C → Option C
last_with id name [] = none
last_with id name (c ∷ cs) =
    let rest = last_with id name cs in or_else rest (if str_eq (id c) name then some c else none)

or_else_assoc : {C : Type 0} (x y z : Option C) → or_else x (or_else y z) ≡ or_else (or_else x y) z
or_else_assoc none y z = refl
or_else_assoc (some x) y z = refl

if-or_else :
    {C : Type 0} (b : Bool) (c : C) (o : Option C)
    → (if b then some c else o) ≡ or_else (if b then some c else none) o
if-or_else true c o = refl
if-or_else false c o = refl

or_else-none : {C : Type 0} (o : Option C) → or_else o none ≡ o
or_else-none none = refl
or_else-none (some c) = refl

lookup-register :
    {C : Type 0} (id : C → String) (name : String) (cs : List C) (m : Map C)
    → lookup name (register id cs m) ≡ or_else (last_with id name cs) (lookup name m)
unfolding register last_with
lookup-register id name [] m = refl
lookup-register id name (c ∷ cs) m =
    lookup-register id name cs (insert (id c) c m)
    ∙ ap (or_else (last_with id name cs))
        (lookup-insert (id c) name c m ∙ if-or_else (str_eq (id c) name) c (lookup name m))
    ∙ or_else_assoc (last_with id name cs) (if str_eq (id c) name then some c else none)
        (lookup name m)

module _ {W : Type 0} (bs : List (Builder W)) (rs : List (Runner W)) where
  -- The engine finds, under a name, the last of the configured builders, or runners, that have it.
  pub by_name-new_engine :
      (env : String → Option ConfigMap) (name : String)
      → (builder_by_name name (new_engine bs rs env) ≡ last_with (λ (b : Builder W). b.id) name bs)
        × (runner_by_name name (new_engine bs rs env) ≡ last_with (λ (r : Runner W). r.id) name rs)
  unfolding builder_by_name runner_by_name new_engine lookup
  by_name-new_engine env name = (
    lookup-register (λ (b : Builder W). b.id) name bs [] ∙ or_else-none _,
    lookup-register (λ (r : Runner W). r.id) name rs [] ∙ or_else-none _,
  )
