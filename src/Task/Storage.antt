-- ===== src/Task/Storage.antt =====
-- pkg/task/storage.go: tasks in a key-value database, under a prefix for their phase.
pub mod Moves
pub mod Phases
pub mod Reads
pub mod Ranges
use testground.Base.{String, Option, none, some, List, [], ◌∷◌, ◌++◌}
use testground.Base.Int.{pos}
use testground.Base.Errors
use testground.Base.Errors.{Fallible, ok, err, panic}
use testground.Base.Actions.{Action, pure, raise, lift, ◌>>=◌}
use testground.Task.{State, Time, unix, Task}
use testground.Task.Bytes.{Bytes, codes, format_int}
use testground.Task.Encoding.{Blob, marshal, unmarshal}
use testground.Task.Errors.{TaskError, not_found, bad_key, should_have_found, key_missing, database}
use testground.Task.Database.{LevelDb, XidLib}

-- database key prefixes
abbrev pub prefix_scheduled : Bytes
prefix_scheduled = codes "queue"

abbrev pub prefix_processing : Bytes
prefix_processing = codes "current"

abbrev pub prefix_complete : Bytes
prefix_complete = codes "archive"

-- an error of the database library, returned as it is
abbrev pub lift_db {ℓ} : {A : Type ℓ} → Fallible String A → Fallible TaskError A
lift_db (ok a) = ok a
lift_db (err s) = err (database s)
lift_db panic = panic

abbrev pub or_error {ℓ} : {A : Type ℓ} → TaskError → Option A → Fallible TaskError A
or_error e none = err e
or_error e (some a) = ok a

-- `prefix + ":" + seconds`, an end of the range
abbrev pub range_end : Bytes → Time → Bytes
range_end prefix t = prefix ++ 58 ∷ format_int (unix t) []

-- the `switch` of Filter: a state that it does not name leaves the prefix empty
abbrev pub prefix_of : State → Bytes
prefix_of State.scheduled = prefix_scheduled
prefix_of State.processing = prefix_processing
prefix_of State.complete = prefix_complete
prefix_of State.canceled = []
prefix_of (State.other s) = []

-- the loop of rangeIter: the first value that does not decode ends it with an error
unfoldable pub decode_all : List (Bytes × Blob) → Fallible TaskError (List Task)
decode_all [] = ok []
decode_all ((k, val) ∷ rest) =
    Errors.◌>>=◌ (unmarshal val) (λ tsk. Errors.◌>>=◌ (decode_all rest) (λ tasks. ok (tsk ∷ tasks)))

module _ (xids : XidLib) where
  open xids use {Xid, from_string, seconds, to_bytes}

  -- prefix + ":" + seconds + "_" + xid
  unfoldable pub key_of : Bytes → Xid → Bytes
  key_of prefix u = prefix ++ 58 ∷ format_int (pos (seconds u)) (95 ∷ to_bytes u)

  -- taskKey
  unfoldable pub task_key : Bytes → String → Fallible TaskError Bytes
  task_key prefix id = Errors.◌>>=◌ (or_error bad_key (from_string id)) (λ u. ok (key_of prefix u))

module _ (level : LevelDb) (xids : XidLib) where
  open level use {Db, Tx, open_transaction, tx_get, tx_put, tx_delete, commit, iterate}

  -- an operation of the database that only reads
  abbrev read {ℓ} : {A : Type ℓ} → (Db → Fallible String A) → Action Db TaskError A
  read f d = (lift_db (f d), d)

  abbrev write : Action Db String (Unit {0}) → Action Db TaskError (Unit {0})
  write m d = let (r, d') = m d in (lift_db r, d')

  -- get
  unfoldable pub get : Bytes → String → Action Db TaskError Task
  unfolding task_key
  get prefix id = do
    key ← lift (task_key xids prefix id)
    found ← read (λ d. level.get d key)
    val ← lift (or_error not_found found)
    lift (unmarshal val)

  -- put
  unfoldable pub put : Bytes → Task → Action Db TaskError (Unit {0})
  unfolding task_key
  put prefix tsk = do key ← lift (task_key xids prefix tsk.id); write (level.put key (marshal tsk))

  -- delete
  unfoldable pub delete_in : Bytes → Task → Action Db TaskError (Unit {0})
  unfolding task_key
  delete_in prefix tsk = do key ← lift (task_key xids prefix tsk.id); write (level.delete key)

  -- `if err == nil { return on_ok(tsk) }; if err != ErrNotFound { return err }; otherwise`
  abbrev on_found {ℓ} :
      {A : Type ℓ}
      → Fallible TaskError Task
      → (Task → Action Db TaskError A)
      → Action Db TaskError A
      → Action Db TaskError A
  on_found (ok tsk) on_ok otherwise = on_ok tsk
  on_found (err not_found) on_ok otherwise = otherwise
  on_found (err e) on_ok otherwise = raise e
  on_found panic on_ok otherwise = lift panic

  abbrev try_get {ℓ} :
      {A : Type ℓ}
      → Bytes
      → String
      → (Task → Action Db TaskError A)
      → Action Db TaskError A
      → Action Db TaskError A
  try_get prefix id on_ok otherwise d =
      let (r, d') = get prefix id d in on_found r on_ok otherwise d'

  -- Delete
  unfoldable pub delete : String → Action Db TaskError (Unit {0})
  delete id = try_get prefix_complete id (delete_in prefix_complete) (
      try_get prefix_processing id (delete_in prefix_processing)
        (try_get prefix_scheduled id (delete_in prefix_scheduled) (raise should_have_found)))

  -- Get
  unfoldable pub get_task : String → Action Db TaskError Task
  get_task id =
      try_get prefix_complete id pure (try_get prefix_processing id pure (get prefix_scheduled id))

  -- PersistProcessing, PersistScheduled
  unfoldable pub persist_processing : Task → Action Db TaskError (Unit {0})
  persist_processing = put prefix_processing

  unfoldable pub persist_scheduled : Task → Action Db TaskError (Unit {0})
  persist_scheduled = put prefix_scheduled

  -- the transaction of changePrefix, up to its Commit
  abbrev move_key : Bytes → Bytes → Db → Fallible TaskError Tx
  move_key newkey oldkey d = Errors.◌>>=◌ (lift_db (open_transaction d)) (λ trans.
      Errors.◌>>=◌ (lift_db (tx_get trans oldkey)) (λ found.
        Errors.◌>>=◌ (or_error key_missing found) (λ val.
          Errors.◌>>=◌ (lift_db (tx_put newkey val trans))
            (λ trans'. lift_db (tx_delete oldkey trans')))))

  -- an error before the Commit discards the transaction; one of the Commit is returned as it is,
  -- with no Discard
  abbrev committed : Fallible TaskError Tx → Action Db TaskError (Unit {0})
  committed (ok trans) d = write (commit trans) d
  committed (err e) d = (err e, d)
  committed panic d = (panic, d)

  -- changePrefix
  unfoldable pub change_prefix : Bytes → Bytes → String → Action Db TaskError (Unit {0})
  unfolding task_key
  change_prefix dst src id = do
    oldkey ← lift (task_key xids src id)
    newkey ← lift (task_key xids dst id)
    λ d. committed (move_key newkey oldkey d) d

  -- ProcessTask
  unfoldable pub process_task : Task → Action Db TaskError (Unit {0})
  process_task tsk = change_prefix prefix_processing prefix_scheduled tsk.id

  -- ArchiveTask
  unfoldable pub archive_task : Task → Action Db TaskError (Unit {0})
  archive_task tsk = change_prefix prefix_complete prefix_processing tsk.id

  -- rangeIter
  unfoldable pub range_iter : Bytes → Time → Time → Db → Fallible TaskError (List Task)
  unfolding decode_all
  range_iter prefix start end d =
      decode_all (iterate d (range_end prefix start) (range_end prefix end))

  -- Filter
  unfoldable pub filter : State → Time → Time → Db → Fallible TaskError (List Task)
  unfolding range_iter
  filter state start end = range_iter (prefix_of state) start end
