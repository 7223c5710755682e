-- ===== src/Task/Errors.antt =====
-- The errors of pkg/task and of pkg/engine's decoder of tasks.
use testground.Base.{String}

pub data TaskError : Type 0 where
  not_found : TaskError  -- ErrNotFound
  queue_empty queue_full : TaskError  -- ErrQueueEmpty, ErrQueueFull
  bad_key : TaskError  -- "task key must be a xid id"
  should_have_found : TaskError  -- "should have found task"
  bad_json : TaskError
  invalid_type : String → TaskError  -- "invalid task type: %s"
  key_missing : TaskError  -- leveldb.ErrNotFound
  database : String → TaskError  -- any other error of the database
  out_of_fuel : TaskError  -- of the model only: a loop's fuel ran out
