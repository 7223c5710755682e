-- ===== src/Engine/Worker/Archive.antt =====
-- pkg/engine/supervisor.go: where a task is, and whether it still has a signal, when its worker
-- goes on to the next one.
use mathlib.Core.List.{append_assoc}
use testground.Base.{
  ◌≡◌, ◌≢◌, refl, sym, ap, ◌∙◌, String, true, false, Option, none, some, List, [], ◌∷◌, ◌++◌,
  eq_iff, if◌then◌else◌, arith,
}
use testground.Base.Maps.{lookup, lookup-insert, lookup-remove}
use testground.Base.Errors.{Fallible, ok, err, panic}
use testground.Task.{Task, State, DatedState, Result}
use testground.Task.Encoding.{marshal}
use testground.Task.Database.{LevelDb, XidLib}
use testground.Task.Keys.{Phase}
use testground.Task.Storage.{persist_processing, archive_task}
use testground.Task.Storage.Moves.{change_prefix-Moved}
use testground.Task.Storage.Phases.{at, put-stores}
use testground.Engine.Signals.{Signals, add_signal, delete_signal}
use testground.Engine.Github.{StatusPost, post_status_to_github}
use testground.Engine.Worker.{
  RunFailure, Surroundings, Daemon, execute, in_work, ended, begin_state, handle, announced_start,
  announced_end, executed,
}

module _ (level : LevelDb) (xids : XidLib) (env : Surroundings) (tsk : Task) where
  open level use {Db}
  open xids use {Xid, from_string}

  -- Github panics for neither form of the task
  abbrev pub IsPosted : Task → Type 0
  IsPosted t = post_status_to_github env.github_token t ≢ panic

  announced_end-eq :
      (t : Task) (s : Daemon Db) (p : Fallible String (Option StatusPost))
      → p ≢ panic
      → announced_end level xids t s p
        ≡ (ok tt, record s { signals = delete_signal t.id s.signals })
  announced_end-eq t s (ok q) h = refl
  announced_end-eq t s (err e) h = refl
  announced_end-eq t s panic h = absurd (h refl)

  announced_start-eq :
      (t : Task) (s : Daemon Db) (p : Fallible String (Option StatusPost))
      → p ≢ panic
      → announced_start level xids env t s p ≡ (
          if env.log_opens
          then executed level xids env t s (execute env t.type t.input)
          else (ok tt, s))
  announced_start-eq t s (ok q) h = refl
  announced_start-eq t s (err e) h = refl
  announced_start-eq t s panic h = absurd (h refl)

  handle-begun :
      (s : Daemon Db) (d : Db)
      → persist_processing level xids (in_work env tsk) s.store ≡ (ok tt, d)
      → IsPosted (in_work env tsk)
      → handle level xids env tsk s ≡ (
          if env.log_opens
          then executed level xids env
              (in_work env tsk)
              (begin_state level xids env tsk.id s.signals d)
              (execute env tsk.type tsk.input)
          else (ok tt, begin_state level xids env tsk.id s.signals d))
  unfolding handle
  handle-begun s d stored posted = rw stored (
      announced_start-eq (in_work env tsk) (begin_state level xids env tsk.id s.signals d) _ posted)

  no_signal : (signals : Signals) → lookup tsk.id (delete_signal tsk.id signals).channels ≡ none
  unfolding delete_signal
  no_signal signals =
      ground (arith, lookup-remove tsk.id tsk.id signals.channels, eq_iff tsk.id tsk.id)

  has_signal :
      (signals : Signals)
      → lookup tsk.id (add_signal tsk.id env.channel signals).channels ≡ some env.channel
  unfolding add_signal
  has_signal signals =
      ground (arith, lookup-insert tsk.id tsk.id env.channel signals.channels, eq_iff tsk.id tsk.id)

  current-archived : Phase.archived ≢ Phase.current
  current-archived h = cc

  -- the state that a handler leaves which reached its end
  abbrev pub done_state : Daemon Db → Db → Daemon Db
  done_state s d = record {
    store = d;
    signals = delete_signal tsk.id (add_signal tsk.id env.channel s.signals);
  }

  handle-end :
      (s : Daemon Db) (d₁ d₂ d₃ : Db) (r : Result × Option RunFailure)
      → persist_processing level xids (in_work env tsk) s.store ≡ (ok tt, d₁)
      → IsPosted (in_work env tsk)
      → env.log_opens ≡ true
      → execute env tsk.type tsk.input ≡ ok (some r)
      → persist_processing level xids (ended env (in_work env tsk) r) d₁ ≡ (ok tt, d₂)
      → archive_task level xids (ended env (in_work env tsk) r) d₂ ≡ (ok tt, d₃)
      → IsPosted (ended env (in_work env tsk) r)
      → handle level xids env tsk s ≡ (ok tt, done_state s d₃)
  handle-end s d₁ d₂ d₃ r stored posted log ran stored' moved posted' =
      handle-begun s d₁ stored posted
      ∙ rw log (
          rw ran
            (rw stored' (rw moved (announced_end-eq (ended env (in_work env tsk) r) _ _ posted'))))

  -- the states of the task, with the one of its start and the one of its end
  abbrev history : State → List DatedState
  history last =
      tsk.states
      ++ record { created = env.started_at; state = State.processing }
        ∷ record { created = env.ended_at; state = last }
        ∷ []

  -- the task that a run or a build with this result and this error leaves
  abbrev pub finished : Result → Option RunFailure → Task
  finished given none = record tsk { states = history State.complete; result = given }
  finished given (some f) = record tsk {
    states = history (if f.is_canceled then State.canceled else State.complete);
    result = given;
    error = f.text;
  }

  ended-finished :
      (given : Result) (failure : Option RunFailure)
      → ended env (in_work env tsk) (given, failure) ≡ finished given failure
  ended-finished given none = rw (append_assoc tsk.states _ _) refl
  ended-finished given (some f) = rw (append_assoc tsk.states _ _) refl

  -- A worker whose storage works, whose log opens and whose posts do not panic brings a task to
  -- its end, where doRun or doBuild returns a result and maybe an error: what is archived is the
  -- task with this result, with the text of the error or its old one, and with the two states
  -- added, the last of which is "canceled" for a canceled context and else "complete". The task is
  -- no longer under "current", and has no signal.
  pub handle-archives :
      (s : Daemon Db) (d₁ d₂ d₃ : Db) (r : Result × Option RunFailure) (u : Xid)
      → from_string tsk.id ≡ some u
      → persist_processing level xids (in_work env tsk) s.store ≡ (ok tt, d₁)
      → IsPosted (in_work env tsk)
      → env.log_opens ≡ true
      → execute env tsk.type tsk.input ≡ ok (some r)
      → persist_processing level xids (ended env (in_work env tsk) r) d₁ ≡ (ok tt, d₂)
      → archive_task level xids (ended env (in_work env tsk) r) d₂ ≡ (ok tt, d₃)
      → IsPosted (ended env (in_work env tsk) r)
      → (handle level xids env tsk s ≡ (ok tt, done_state s d₃))
        × (at level xids d₃ Phase.archived u ≡ some (marshal (finished r.0 r.1)))
        × (at level xids d₃ Phase.current u ≡ none)
        × (lookup tsk.id (done_state s d₃).signals.channels ≡ none)
  unfolding persist_processing archive_task
  handle-archives s d₁ d₂ d₃ r u known stored posted log ran stored' moved posted' =
      let final = ended env (in_work env tsk) r in
      let (v, known', move) =
        change_prefix-Moved level xids Phase.archived Phase.current tsk.id d₂ d₃ current-archived
          moved in
      let (held, others) = put-stores level xids Phase.current final u d₁ d₂ known stored' in
      let same : v ≡ u = some-inj (sym known' ∙ known) in
      (
        handle-end s d₁ d₂ d₃ r stored posted log ran stored' moved posted',
        ap (λ (x : Xid). at level xids d₃ Phase.archived x) (sym same)
            ∙ move.arrived
            ∙ sym move.held
            ∙ ap (λ (x : Xid). at level xids d₂ Phase.current x) same
            ∙ held
            ∙ ap (λ (x : Task). some (marshal x)) (ended-finished r.0 r.1),
        ap (λ (x : Xid). at level xids d₃ Phase.current x) (sym same) ∙ move.left,
        no_signal (add_signal tsk.id env.channel s.signals),
      )
    where
      some-inj : {v u : Xid} → ◌≡◌ {A = Option Xid} (some v) (some u) → v ≡ u
      some-inj h = cc

  -- A worker that cannot open the log of a task returns at once: the task stays under "current",
  -- in the state "processing", and keeps its signal.
  pub handle-leaks :
      (s : Daemon Db) (d : Db) (u : Xid)
      → from_string tsk.id ≡ some u
      → persist_processing level xids (in_work env tsk) s.store ≡ (ok tt, d)
      → IsPosted (in_work env tsk)
      → env.log_opens ≡ false
      → (handle level xids env tsk s ≡ (ok tt, begin_state level xids env tsk.id s.signals d))
        × (at level xids d Phase.current u ≡ some (marshal (in_work env tsk)))
        × (lookup tsk.id (begin_state level xids env tsk.id s.signals d).signals.channels
            ≡ some env.channel)
  unfolding persist_processing
  handle-leaks s d u known stored posted log = (
    handle-begun s d stored posted ∙ rw log refl,
    (put-stores level xids Phase.current (in_work env tsk) u s.store d known stored).0,
    has_signal s.signals,
  )
