-- ===== src/Task/Encoding.antt =====
-- How a task is stored: encoding/json over the fields of Task, and UnmarshalTask of
-- pkg/engine/engine.go. JSON keeps every field and forgets the Go type behind an `interface{}`.
use testground.Base.{◌≡◌, refl, String, List, [], ◌∷◌}
use testground.Base.Int.{ℤ}
use testground.Base.Errors.{Fallible, ok, err, ◌>>=◌}
use testground.Task.{DatedState, CreatedBy, TaskType, Input, Result, Task}
use testground.Task.Payload.{Json, null, object, result_object, strings, scalar}
use testground.Task.Errors.{TaskError, bad_json, invalid_type}

pub record Document : Type 0 where
  pub version : ℤ
  pub priority : ℤ
  pub id : String
  pub runner : String
  pub plan : String
  pub case : String
  pub states : List DatedState
  pub type : TaskType
  pub composition : Json
  pub input : Json
  pub result : Json
  pub error : String
  pub created_by : CreatedBy

-- The bytes of a database value: a task's document, or what is none.
pub data Blob : Type 0 where
  document : Document → Blob
  garbage : String → Blob

encode_input : Input → Json
encode_input Input.no_input = null
encode_input (Input.run_input j) = j
encode_input (Input.build_input j) = j
encode_input (Input.untyped j) = j

-- a nil slice is `null`
encode_result : Result → Json
encode_result Result.no_result = null
encode_result (Result.runner_result o s) = result_object o s
encode_result (Result.artifact_paths []) = null
encode_result (Result.artifact_paths (p ∷ ps)) = strings (p ∷ ps)
encode_result (Result.untyped j) = j

-- `json.Marshal(tsk)`: a task has no field that cannot be encoded
unfoldable pub marshal : Task → Blob
unfolding encode_input encode_result
marshal t = document (record {
  version = t.version;
  priority = t.priority;
  id = t.id;
  runner = t.runner;
  plan = t.plan;
  case = t.case;
  states = t.states;
  type = t.type;
  composition = t.composition;
  input = encode_input t.input;
  result = encode_result t.result;
  error = t.error;
  created_by = t.created_by;
})

-- a nil `interface{}` takes whatever the document has
decode_input : Json → Input
decode_input null = Input.no_input
decode_input j = Input.untyped j

decode_result : Json → Result
decode_result null = Result.no_result
decode_result j = Result.untyped j

decode_with : Input → Document → Task
unfolding decode_result
decode_with i d = record {
  version = d.version;
  priority = d.priority;
  id = d.id;
  runner = d.runner;
  plan = d.plan;
  case = d.case;
  states = d.states;
  type = d.type;
  composition = d.composition;
  input = i;
  result = decode_result d.result;
  error = d.error;
  created_by = d.created_by;
}

-- `json.Unmarshal(val, &Task{})`
unfoldable pub unmarshal : Blob → Fallible TaskError Task
unfolding decode_with decode_input
unmarshal (garbage s) = err bad_json
unmarshal (document d) = ok (decode_with (decode_input d.input) d)

-- an `interface{}` that holds a pointer to a struct: the struct is filled, `null` sets it to nil
fill : (Json → Input) → Json → Fallible TaskError Input
fill wrap null = ok Input.no_input
fill wrap (object s) = ok (wrap (object s))
fill wrap (result_object o s) = ok (wrap (result_object o s))
fill wrap (strings l) = err bad_json
fill wrap (scalar s) = err bad_json

fill_by_type : TaskType → Json → Fallible TaskError Input
unfolding fill
fill_by_type TaskType.run j = fill Input.run_input j
fill_by_type TaskType.build j = fill Input.build_input j
fill_by_type (TaskType.other s) j = err (invalid_type s)

-- UnmarshalTask
unfoldable pub unmarshal_task : Blob → Fallible TaskError Task
unfolding fill_by_type decode_with
unmarshal_task (garbage s) = err bad_json
unmarshal_task (document d) = do i ← fill_by_type d.type d.input; ok (decode_with i d)

-- what is left of an Input and of a Result that went through the database
abbrev pub forget_input : Input → Input
unfolding encode_input decode_input
forget_input i = decode_input (encode_input i)

abbrev pub forget_result : Result → Result
unfolding encode_result decode_result
forget_result r = decode_result (encode_result r)

-- What storage reads back of a stored task is the task, its payloads without their Go types.
pub unmarshal-marshal :
    (t : Task)
    → unmarshal (marshal t)
      ≡ ok (record t { input = forget_input t.input; result = forget_result t.result })
unfolding unmarshal marshal
unmarshal-marshal t = refl

-- The payload that a scheduled task of this type has: a pointer to the struct that its worker
-- asserts.
pub data HasInput : TaskType → Input → Type 0 where
  run_object : (s : String) → HasInput TaskType.run (Input.run_input (object s))
  build_object : (s : String) → HasInput TaskType.build (Input.build_input (object s))

fill-HasInput : {k : TaskType} {i : Input} → HasInput k i → fill_by_type k (encode_input i) ≡ ok i
unfolding fill_by_type encode_input
fill-HasInput (run_object s) = refl
fill-HasInput (build_object s) = refl
