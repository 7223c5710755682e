-- ===== src/Engine/Logs.antt =====
-- pkg/engine/engine.go: Logs, which sends the log of a task to a client, at once or while the task
-- is in work. The log's file is the chunks that the reader meets in it and how the reading ends;
-- the goroutine that waits for the task's end and then stops the reader makes it end.
use testground.Base.{
  String, Bool, true, false, Option, none, some, List, [], ◌∷◌, ◌++◌, if◌then◌else◌,
}
use testground.Base.Errors
use testground.Base.Errors.{Fallible, ok, err, panic}
use testground.Base.Actions.{Action, pure, raise, lift, ◌>>=◌, ◌>>◌}
use testground.Task.{Task, State, state}
use testground.Task.Bytes.{Bytes}
use testground.Task.Errors.{TaskError}
use testground.Engine.Signals.{Signals, kill}
use testground.Rpc.{Base64, Chunk, string, tree, Response, WriteError, write_progress}

pub data LogsError : Type 0 where
  status : TaskError → LogsError
  open_failed : String → LogsError
  copy_failed : LogsError
  decode_failed : String → LogsError
  bad_base64 : LogsError
  write_failed : WriteError → LogsError

-- how the reading of the log ends: the reader was stopped, the client is gone, or the rest is not
-- a chunk
pub data Ending : Type 0 where
  end_of_file : Ending
  canceled : Ending
  undecodable : String → Ending

pub record LogFile : Type 0 where
  pub open_error : Option String
  pub chunks : List Chunk
  pub ending : Ending

-- what Logs changes: the signals of the engine, and the response
abbrev pub LogsState : Type 0
LogsState = Signals × Response

abbrev pub LogsAction : Type 0 → Type 0
LogsAction A = Action LogsState LogsError A

-- a state with which the loop goes on, or ends
abbrev has_started : State → Bool
has_started State.scheduled = false
has_started State.processing = true
has_started State.complete = true
has_started State.canceled = true
has_started (State.other s) = true

-- the loop that waits for the task to start, over what the storage answers; none while it waits
unfoldable pub wait_started :
    List (Fallible TaskError Task) → Option (Fallible LogsError (Unit {0}))
wait_started [] = none
wait_started (answer ∷ answers) =
    let rest = wait_started answers in
    elim (Errors.◌>>=◌ answer state) [
      | err e ↦ some (err (LogsError.status e))
      | panic ↦ some panic
      | ok last ↦ if has_started last.state then some (ok tt) else rest
    ]

-- `chunk.Payload.(string)`, decoded
unfoldable pub message_of : Base64 → Chunk → Fallible LogsError Bytes
message_of base64 chunk = elim chunk.payload [
  | none ↦ panic
  | some v ↦ elim v [
    | tree t ↦ panic
    | string s ↦ elim (base64.decode s) [ none ↦ err LogsError.bad_base64 | some m ↦ ok m ]
  ]
]

abbrev of_write : Fallible WriteError (Unit {0}) → Fallible LogsError (Unit {0})
of_write (ok u) = ok u
of_write (err e) = err (LogsError.write_failed e)
of_write panic = panic

abbrev pub of_task : Fallible TaskError Task → Fallible LogsError Task
of_task (ok t) = ok t
of_task (err e) = err (LogsError.status e)
of_task panic = panic

abbrev of_kill : Fallible String (Unit {0}) → Fallible LogsError (Unit {0})
of_kill (ok u) = ok u
of_kill (err e) = ok tt
of_kill panic = panic

module _ (base64 : Base64) where
  abbrev pub forward : Bytes → LogsAction (Unit {0})
  forward m (signals, r) =
      let (written, r') = write_progress base64 (some m) r in (of_write written, (signals, r'))

  -- a canceled request closes the task's channel where it asks for that
  abbrev kill_if : Bool → String → LogsAction (Unit {0})
  kill_if false id s = (ok tt, s)
  kill_if true id (signals, r) = let (k, signals') = kill id signals in (of_kill k, (signals', r))

  abbrev at_ending : Bool → String → Ending → LogsAction (Unit {0})
  at_ending cancel id end_of_file = pure tt
  at_ending cancel id canceled = kill_if cancel id
  at_ending cancel id (undecodable e) = raise (LogsError.decode_failed e)

  -- the loop over the chunks
  unfoldable pub follow_chunks : Bool → String → List Chunk → Ending → LogsAction (Unit {0})
  unfolding message_of
  follow_chunks cancel id [] ending = at_ending cancel id ending
  follow_chunks cancel id (chunk ∷ chunks) ending = do
    m ← lift (message_of base64 chunk)
    forward m
    follow_chunks cancel id chunks ending

  abbrev opened : Option String → LogsAction (Unit {0})
  opened none = pure tt
  opened (some e) = raise (LogsError.open_failed e)

  -- io.Copy: the documents of the file as they stand
  unfoldable pub copy_chunks : List Chunk → LogsAction (Unit {0})
  copy_chunks chunks (signals, r) =
      if r.is_broken
      then (err LogsError.copy_failed, (signals, r))
      else (ok tt, (signals, record r { sent = r.sent ++ chunks }))

  -- Logs without follow
  unfoldable pub logs_now : LogFile → Fallible TaskError Task → LogsAction Task
  unfolding copy_chunks
  logs_now file last = opened file.open_error >> copy_chunks file.chunks >> lift (of_task last)

  -- Logs with follow, after the task has started
  unfoldable pub logs_followed : Bool → String → LogFile → Fallible TaskError Task → LogsAction Task
  unfolding follow_chunks
  logs_followed cancel id file last =
      opened file.open_error
      >> follow_chunks cancel id file.chunks file.ending
      >> lift (of_task last)

  abbrev after_start :
      Option (Fallible LogsError (Unit {0})) → LogsAction Task → Option (LogsAction Task)
  after_start none rest = none
  after_start (some r) rest = some (lift r >> rest)

  -- Logs; `answers` are those of the storage while it waits, `last` is the one at the end
  unfoldable pub logs :
      String
      → Bool
      → Bool
      → List (Fallible TaskError Task)
      → LogFile
      → Fallible TaskError Task
      → Option (LogsAction Task)
  unfolding wait_started logs_now logs_followed
  logs id follow cancel answers file last =
      if follow
      then after_start (wait_started answers) (logs_followed cancel id file last)
      else some (logs_now file last)
