-- ===== src/Task.antt =====
-- pkg/task/task.go: the task record, its states and what is derived from them.
pub mod Payload
pub mod Bytes
pub mod Errors
pub mod Encoding
pub mod Database
pub mod Storage
pub mod Keys
pub mod Heap
pub mod Queue
use testground.Base.{
  ℕ, ◌-◌, ◌/◌, ◌≡◌, refl, String, Bool, true, false, not, ◌&&◌, List, [], ◌∷◌, ◌++◌, str_eq,
}
use testground.Base.Int.{ℤ, sub_ℕ}
use testground.Base.Errors.{Fallible, ok, panic, ◌>>=◌}
use Prim.Native.String.{◌++◌ as concat}
use Payload.{Outcome, Json}

-- `State` is a Go string: a stored document may hold any other text.
pub data State : Type 0 where
  scheduled processing complete canceled : State
  other : String → State

pub data TaskType : Type 0 where
  build run : TaskType
  other : String → TaskType

-- A `time.Time`, as the nanoseconds since the zero time, 1 January of year 1.
abbrev pub Time : Type 0
Time = ℕ

abbrev pub second : ℕ
second = 1000000000

-- `t.Unix()`
unfoldable pub unix : Time → ℤ
unix t = sub_ℕ (t / second) 62135596800

pub record DatedState : Type 0 where
  pub created : Time
  pub state : State

pub record CreatedBy : Type 0 where
  pub user : String
  pub repo : String
  pub branch : String
  pub commit : String

-- The values behind the `interface{}` field Input.
pub data Input : Type 0 where
  no_input : Input
  run_input : Json → Input  -- a *RunInput, by its JSON form
  build_input : Json → Input  -- a *BuildInput
  untyped : Json → Input  -- what encoding/json makes without a type

-- The values behind the `interface{}` field Result.
pub data Result : Type 0 where
  no_result : Result
  runner_result : Outcome → String → Result  -- a *runner.Result
  artifact_paths : List String → Result
  untyped : Json → Result

pub record Task : Type 0 where
  pub version : ℤ
  pub priority : ℤ
  pub id : String
  pub runner : String
  pub plan : String
  pub case : String
  pub states : List DatedState
  pub type : TaskType
  pub composition : Json
  pub input : Input
  pub result : Result
  pub error : String
  pub created_by : CreatedBy

first_state : {E : Type 0} → List DatedState → Fallible E DatedState
first_state [] = panic
first_state (d ∷ ds) = ok d

-- `t.Created()`
unfoldable pub created : {E : Type 0} → Task → Fallible E Time
unfolding first_state
created t = do d ← first_state t.states; ok d.created

last_state : {E : Type 0} → List DatedState → Fallible E DatedState
last_state [] = panic
last_state (d ∷ []) = ok d
last_state (d ∷ e ∷ ds) = last_state (e ∷ ds)

-- `t.State()`
unfoldable pub state : {E : Type 0} → Task → Fallible E DatedState
unfolding last_state
state t = last_state t.states

abbrev is_canceled_state : State → Bool
is_canceled_state State.canceled = true
is_canceled_state _ = false

-- `t.IsCanceled()`
unfoldable pub is_canceled : {E : Type 0} → Task → Fallible E Bool
unfolding state
is_canceled t = do d ← state t; ok (is_canceled_state d.state)

-- `t.Name()`
unfoldable pub name : Task → String
name t = elim t.type [
  | TaskType.build ↦ "build"
  | TaskType.run ↦ concat t.plan (concat ":" t.case)
  | TaskType.other _ ↦ "not supported"
]

-- `t.Took()`, in seconds: both times are the daemon's, so the difference is not negative
unfoldable pub took : {E : Type 0} → Task → Fallible E ℕ
unfolding state created
took t = do d ← state t; c ← created t; ok ((d.created - c) / second)

-- `t.CreatedByCI()`
unfoldable pub created_by_ci : Task → Bool
created_by_ci t =
    not (str_eq t.created_by.repo "")
    && (not (str_eq t.created_by.commit "") && not (str_eq t.created_by.branch ""))

-- `tsk.States = append(tsk.States, d)`
abbrev pub add_state : DatedState → Task → Task
add_state d t = record t { states = t.states ++ d ∷ [] }

-- A task that was appended to is in the appended state, and was created when it was before.
pub state-add_state :
    {E : Type 0} (t : Task) (d : DatedState) → state {E = E} (add_state d t) ≡ ok d
unfolding state
state-add_state {E} t d = last t.states
  where
    last : (ds : List DatedState) → last_state {E = E} (ds ++ d ∷ []) ≡ ok d
    last [] = refl
    last (e ∷ []) = refl
    last (e ∷ f ∷ ds) = last (f ∷ ds)
