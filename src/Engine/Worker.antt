-- ===== src/Engine/Worker.antt =====
-- pkg/engine/supervisor.go: what a worker does with one task that it popped. Its first and its
-- last calls that post to Slack and Github only matter here where one of them panics.
pub mod Archive
use testground.Base.{
  ℕ, String, Bool, true, false, Option, none, some, List, [], ◌∷◌, ◌++◌, if◌then◌else◌,
}
use testground.Base.Errors
use testground.Base.Errors.{Fallible, ok, err, panic}
use testground.Base.Actions.{Action}
use testground.Task.{Task, TaskType, State, DatedState, Input, Result, Time, add_state}
use testground.Task.Payload.{Json}
use testground.Task.Errors.{TaskError}
use testground.Task.Database.{LevelDb, XidLib}
use testground.Task.Storage.{persist_processing, archive_task}
use testground.Engine.Signals.{Signals, add_signal, delete_signal}
use testground.Engine.Github.{StatusPost, post_status_to_github}

-- the error of doRun or of doBuild: its text, and whether it is context.Canceled
pub record RunFailure : Type 0 where
  pub text : String
  pub is_canceled : Bool

-- What the handler of one task meets: the channel that it makes, the log that it opens or not,
-- what doRun and doBuild return, or that they panic, and the two times that it reads.
pub record Surroundings : Type 0 where
  pub channel : ℕ
  pub log_opens : Bool
  pub do_run : Json → Fallible String (Option Result × Option RunFailure)
  pub do_build : Json → Fallible String (Option (List String) × Option RunFailure)
  pub started_at : Time
  pub ended_at : Time
  pub github_token : String

-- the storage is a pointer that the queue shares
pub record Daemon (Db : Type 0) : Type 0 where
  pub store : Db
  pub signals : Signals

abbrev pub or_no_result : Option Result → Result
or_no_result none = Result.no_result
or_no_result (some r) = r

-- a nil result of doBuild, or its artifacts
abbrev pub build_result : Option (List String) → Result
build_result none = Result.no_result
build_result (some paths) = Result.artifact_paths paths

-- `e.doRun(…, tsk.Input.(*RunInput), …)` and its like for builds: an assertion of another type
-- panics; a task of another type ends the handler, which is `none`
abbrev pub execute :
    Surroundings → TaskType → Input → Fallible String (Option (Result × Option RunFailure))
execute env TaskType.run (Input.run_input j) =
    Errors.◌>>=◌ (env.do_run j) (λ (res, failure). ok (some (or_no_result res, failure)))
execute env TaskType.build (Input.build_input j) =
    Errors.◌>>=◌ (env.do_build j) (λ (res, failure). ok (some (build_result res, failure)))
execute env TaskType.run (Input.build_input j) = panic
execute env TaskType.run (Input.untyped j) = panic
execute env TaskType.run Input.no_input = panic
execute env TaskType.build (Input.run_input j) = panic
execute env TaskType.build (Input.untyped j) = panic
execute env TaskType.build Input.no_input = panic
execute env (TaskType.other s) i = ok none

abbrev pub final_state : Option RunFailure → State
final_state none = State.complete
final_state (some f) = if f.is_canceled then State.canceled else State.complete

abbrev pub final_error : String → Option RunFailure → String
final_error old none = old
final_error old (some f) = f.text

-- the task while it is in work
abbrev pub in_work : Surroundings → Task → Task
in_work env tsk = add_state (record { created = env.started_at; state = State.processing }) tsk

-- the task after it ended
abbrev pub ended : Surroundings → Task → Result × Option RunFailure → Task
ended env tsk (result, failure) = record tsk {
  states = tsk.states ++ record { created = env.ended_at; state = final_state failure } ∷ [];
  result = result;
  error = final_error tsk.error failure;
}

module _ (level : LevelDb) (xids : XidLib) where
  open level use {Db}

  abbrev pub announced_end :
      Task
      → Daemon Db
      → Fallible String (Option StatusPost)
      → Fallible TaskError (Unit {0}) × Daemon Db
  announced_end tsk s (ok p) = (ok tt, record s { signals = delete_signal tsk.id s.signals })
  announced_end tsk s (err e) = (ok tt, record s { signals = delete_signal tsk.id s.signals })
  announced_end tsk s panic = (panic, s)

  -- after the task is archived
  abbrev pub announce_end :
      Surroundings → Task → Daemon Db → Fallible TaskError (Unit {0}) × Daemon Db
  announce_end env tsk s = announced_end tsk s (post_status_to_github env.github_token tsk)

  -- the second PersistProcessing, then ArchiveTask: an error of one of them is logged, and the
  -- handler returns
  abbrev pub archived :
      Surroundings
      → Task
      → Daemon Db
      → Fallible TaskError (Unit {0}) × Db
      → Fallible TaskError (Unit {0}) × Daemon Db
  archived env tsk s (ok _, d) = announce_end env tsk (record s { store = d })
  archived env tsk s (err e, d) = (ok tt, record s { store = d })
  archived env tsk s (panic, d) = (panic, record s { store = d })

  abbrev pub persisted :
      Surroundings
      → Task
      → Daemon Db
      → Fallible TaskError (Unit {0}) × Db
      → Fallible TaskError (Unit {0}) × Daemon Db
  persisted env tsk s (ok _, d) =
      archived env tsk (record s { store = d }) (archive_task level xids tsk d)
  persisted env tsk s (err e, d) = (ok tt, record s { store = d })
  persisted env tsk s (panic, d) = (panic, record s { store = d })

  abbrev pub executed :
      Surroundings
      → Task
      → Daemon Db
      → Fallible String (Option (Result × Option RunFailure))
      → Fallible TaskError (Unit {0}) × Daemon Db
  executed env tsk s (ok (some r)) =
      persisted env (ended env tsk r) s (persist_processing level xids (ended env tsk r) s.store)
  executed env tsk s (ok none) = (ok tt, s)
  executed env tsk s (err e) = (ok tt, s)
  executed env tsk s panic = (panic, s)

  abbrev pub announced_start :
      Surroundings
      → Task
      → Daemon Db
      → Fallible String (Option StatusPost)
      → Fallible TaskError (Unit {0}) × Daemon Db
  announced_start env tsk s panic = (panic, s)
  announced_start env tsk s (ok p) =
      if env.log_opens then executed env tsk s (execute env tsk.type tsk.input) else (ok tt, s)
  announced_start env tsk s (err e) =
      if env.log_opens then executed env tsk s (execute env tsk.type tsk.input) else (ok tt, s)

  -- after the first PersistProcessing, whose error is only logged
  abbrev pub begun :
      Surroundings
      → Task
      → Daemon Db
      → Fallible TaskError (Unit {0})
      → Fallible TaskError (Unit {0}) × Daemon Db
  begun env tsk s panic = (panic, s)
  begun env tsk s (ok _) = announced_start env tsk s (post_status_to_github env.github_token tsk)
  begun env tsk s (err e) = announced_start env tsk s (post_status_to_github env.github_token tsk)

  -- the state after the signal was added and the task stored
  abbrev pub begin_state : Surroundings → String → Signals → Db → Daemon Db
  begin_state env id signals d = record { store = d; signals = add_signal id env.channel signals }

  -- the function that worker calls for each task
  unfoldable pub handle :
      Surroundings → Task → Daemon Db → Fallible TaskError (Unit {0}) × Daemon Db
  handle env tsk s =
      let (stored, d) = persist_processing level xids (in_work env tsk) s.store in
      begun env (in_work env tsk) (begin_state env tsk.id s.signals d) stored
