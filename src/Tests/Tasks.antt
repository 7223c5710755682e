-- ===== src/Tests/Tasks.antt =====
-- Tasks at concrete values, and what the database keeps of them.
use testground.Base.{String, ◌+◌, ◌*◌, [], ◌∷◌}
use testground.Base.Int.{ℤ, pos}
use testground.Task.{Task, Time, State, TaskType, Input, Result, second}
use testground.Task.Payload.{object, null}

-- a scheduled run with this id and priority, created this many seconds after a fixed time
abbrev pub sample_task : String → ℤ → Time → Task
sample_task id priority t = record {
  version = pos 0;
  priority = priority;
  id = id;
  runner = "local:docker";
  plan = "network";
  case = "ping-pong";
  states = record { created = 63735596800000000000 + t * second; state = State.scheduled } ∷ [];
  type = TaskType.run;
  composition = null;
  input = Input.run_input (object "{}");
  result = Result.no_result;
  error = "";
  created_by = record { user = ""; repo = ""; branch = ""; commit = "" };
}

abbrev pub urgent : Task
urgent = sample_task "urgent" (pos 2) 9

abbrev pub early : Task
early = sample_task "early" (pos 1) 3

abbrev pub late : Task
late = sample_task "late" (pos 1) 7
