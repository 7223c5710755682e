-- ===== src/Engine/Queueing.antt =====
-- pkg/engine/engine.go: QueueBuild and QueueRun, which push a scheduled task. The new xid and the
-- time are arguments.
use mathlib.Core.List.{Perm}
use testground.Base.{
  ◌≡◌, ◌≢◌, refl, ◌⊎◌, inl, inr, String, true, not, eq_iff, arith, Bool-cases, Option, none, some,
  List, [], ◌∷◌, length,
}
use testground.Base.Int.{ℤ, pos, ltb_ℤ}
use testground.Base.Maps.{Map, lookup}
use testground.Base.Errors
use testground.Base.Errors.{Fallible, ok, err, panic, fail_if, >>=-eq-ok}
use testground.Base.Actions.{Action}
use testground.Task.{Task, TaskType, State, Input, Result, Time, CreatedBy}
use testground.Task.Payload.{Json, null}
use testground.Task.Errors.{TaskError}
use testground.Task.Database.{LevelDb, XidLib}
use testground.Task.Storage.{persist_scheduled}
use testground.Task.Queue.{Queue, push}
use testground.Task.Queue.Operations.{IsValid, push_correct}
use testground.Api.Composition.{Group, Composition}
use testground.Api.Manifest.{contains}
use testground.Api.Prepare.{list_builders}

pub data QueueError : Type 0 where
  unknown_runner : String → QueueError
  incompatible : String → String → QueueError
  refused : TaskError → QueueError

-- what the code uses of a request; `payload` is the JSON of the request with its sources
pub record Request : Type 0 where
  pub priority : ℤ
  pub created_by : CreatedBy
  pub payload : Json

abbrev scheduled_task : String → Time → Request → Task
scheduled_task id now request = record {
  version = pos 0;
  priority = request.priority;
  id = id;
  runner = "";
  plan = "";
  case = "";
  states = record { created = now; state = State.scheduled } ∷ [];
  type = TaskType.build;
  composition = null;
  input = Input.build_input request.payload;
  result = Result.no_result;
  error = "";
  created_by = request.created_by;
}

abbrev pub build_task : String → Time → Request → Task
build_task id now request = scheduled_task id now request

abbrev pub run_task : String → Time → Request → Composition → Json → Task
run_task id now request c composition = record (scheduled_task id now request) {
  runner = c.global.runner;
  plan = c.global.plan;
  case = c.global.case;
  type = TaskType.run;
  composition = composition;
  input = Input.run_input request.payload;
}

-- the loop over the builders; the runner is known by the builders that it is compatible with
unfoldable pub check_compatible :
    String → List String → List String → Fallible QueueError (Unit {0})
check_compatible runner compatible [] = ok tt
check_compatible runner compatible (b ∷ bs) =
    Errors.◌>>◌ (fail_if (not (contains b compatible)) (incompatible runner b))
      (check_compatible runner compatible bs)

abbrev pub known_runner : String → Option (List String) → Fallible QueueError (List String)
known_runner runner none = err (unknown_runner runner)
known_runner runner (some compatible) = ok compatible

-- a composition is read here, so a nil group panics
abbrev pub listed : {E : Type 0} → Fallible E (List String) → Fallible QueueError (List String)
listed (ok bs) = ok bs
listed (err e) = panic
listed panic = panic

listed-ok :
    {E : Type 0} (r : Fallible E (List String)) {bs : List String} → listed r ≡ ok bs → r ≡ ok bs
listed-ok (ok cs) h = cc h
listed-ok (err e) h = cc h
listed-ok panic h = cc h

known_runner-ok :
    (runner : String) (found : Option (List String)) {compatible : List String}
    → known_runner runner found ≡ ok compatible
    → found ≡ some compatible
known_runner-ok runner none h = cc h
known_runner-ok runner (some bs) h = cc h

abbrev pub pushed_id :
    {S : Type 0} → String → Fallible TaskError (Unit {0}) × S → Fallible QueueError String × S
pushed_id id (ok _, s) = (ok id, s)
pushed_id id (err e, s) = (err (refused e), s)
pushed_id id (panic, s) = (panic, s)

check_compatible-ok :
    (runner : String) (compatible bs : List String)
    → check_compatible runner compatible bs ≡ ok tt
    → (b : String) → contains b bs ≡ true
    → contains b compatible ≡ true
unfolding check_compatible contains
check_compatible-ok runner compatible [] checked b h = cc h
check_compatible-ok runner compatible (x ∷ bs) checked b h =
    elim (Bool-cases (contains x compatible)) [
      | inl fits ↦
          let rest : check_compatible runner compatible bs ≡ ok tt =
            (unfold check_compatible in ground arith) in
          ground (arith, eq_iff x b, check_compatible-ok runner compatible bs rest b)
      | inr other ↦ unfold check_compatible in ground arith
    ]

-- The runner is known, and compatible with the builder of every group.
abbrev pub IsCompatible : {F : Type 0} → Map (List String) → Composition → List (Group F) → Type 0
IsCompatible runners c heap =
    (compatible builders : List String) × (lookup c.global.runner runners ≡ some compatible)
    × (list_builders c heap ≡ ok builders)
    × ((b : String) → contains b builders ≡ true → contains b compatible ≡ true)

module _ (level : LevelDb) (xids : XidLib) where
  open level use {Db}

  -- QueueBuild
  unfoldable pub queue_build : String → Time → Request → Action (Queue Db) QueueError String
  queue_build id now request q = pushed_id id (push level xids (build_task id now request) q)

  abbrev pub push_checked :
      String → Task → Fallible QueueError (Unit {0}) → Action (Queue Db) QueueError String
  push_checked id t (ok _) q = pushed_id id (push level xids t q)
  push_checked id t (err e) q = (err e, q)
  push_checked id t panic q = (panic, q)

  module _ {F : Type 0} (runners : Map (List String)) (c : Composition)
      (heap : List (Group F)) where
    -- the checks of QueueRun
    unfoldable pub check_run : Fallible QueueError (Unit {0})
    check_run = Errors.◌>>=◌ (listed (list_builders c heap)) (λ builders.
        Errors.◌>>=◌ (known_runner c.global.runner (lookup c.global.runner runners))
          (λ compatible. check_compatible c.global.runner compatible builders))

    check_run-IsCompatible : check_run ≡ ok tt → IsCompatible runners c heap
    unfolding check_run
    check_run-IsCompatible h =
        let (builders, was_listed, h₁) = >>=-eq-ok (listed (list_builders c heap)) _ h in
        let (compatible, known, h₂) =
          >>=-eq-ok (known_runner c.global.runner (lookup c.global.runner runners)) _ h₁ in
        (
          compatible,
          builders,
          known_runner-ok c.global.runner (lookup c.global.runner runners) known,
          listed-ok (list_builders c heap) was_listed,
          check_compatible-ok c.global.runner compatible builders h₂,
        )

    -- QueueRun
    unfoldable pub queue_run : String → Time → Request → Json → Action (Queue Db) QueueError String
    queue_run id now request composition q =
        push_checked id (run_task id now request c composition) check_run q

    -- QueueRun on a valid queue with room, when the storage takes the task, does one of these. A
    -- check refuses, or panics: QueueRun does the same and the queue is unchanged. Or the runner is
    -- known and compatible with every builder of the composition: QueueRun returns the new id and
    -- adds exactly the scheduled task, and the queue stays valid.
    pub queue_run_correct :
        (id : String) (now : Time) (request : Request) (composition : Json) (q : Queue Db)
        → IsValid q
        → ltb_ℤ (pos (length q.tq)) q.max ≡ true
        → (d : Db)
        → persist_scheduled level xids (run_task id now request c composition) q.ts ≡ (ok tt, d)
        → ((e : QueueError) × (check_run ≡ err e)
            × (queue_run id now request composition q ≡ (err e, q)))
          ⊎ (((check_run ≡ panic) × (queue_run id now request composition q ≡ (panic, q)))
              ⊎ ((tq : List Task) × IsCompatible runners c heap
                  × (queue_run id now request composition q ≡ (ok id, record q { tq = tq; ts = d }))
                  × IsValid (record q { tq = tq; ts = d })
                  × Perm tq (run_task id now request c composition ∷ q.tq)))
    queue_run_correct id now request composition q v room d stored =
        let t = run_task id now request c composition in
        let (tq, ran, valid, same) = push_correct level xids t q d v has_state room stored in
        go check_run refl tq ran valid same
      where
        has_state : (run_task id now request c composition).states ≢ []
        has_state e = cc e

        go :
            (r : Fallible QueueError (Unit {0}))
            → check_run ≡ r
            → (tq : List Task)
            → push level xids (run_task id now request c composition) q
              ≡ (ok tt, record q { tq = tq; ts = d })
            → IsValid (record q { tq = tq; ts = d })
            → Perm tq (run_task id now request c composition ∷ q.tq)
            → ((e : QueueError) × (check_run ≡ err e)
                × (queue_run id now request composition q ≡ (err e, q)))
              ⊎ (((check_run ≡ panic) × (queue_run id now request composition q ≡ (panic, q)))
                  ⊎ ((tq : List Task) × IsCompatible runners c heap
                      × (queue_run id now request composition q
                          ≡ (ok id, record q { tq = tq; ts = d }))
                      × IsValid (record q { tq = tq; ts = d })
                      × Perm tq (run_task id now request c composition ∷ q.tq)))
        go (err x) e tq ran valid same = inl (x, e, unfold queue_run in rw e refl)
        go panic e tq ran valid same = inr (inl (e, unfold queue_run in rw e refl))
        go (ok u) e tq ran valid same = inr (
            inr (tq, check_run-IsCompatible e, unfold queue_run in rw e (rw ran refl), valid, same))
