-- ===== src/Data.antt =====
-- pkg/data/result.go: the outcome of a task, read from its state and result. The decoder of
-- mapstructure is a parameter.
use testground.Base.{
  ◌≡◌, ◌↔◌, refl, ◌⊎◌, inl, inr, String, Option, none, some, Bool, false, if◌then◌else◌, Bool-cases,
}
use testground.Base.Errors.{Fallible, ok, err, ◌>>=◌}
use testground.Task.{Task, TaskType, State, Result, DatedState, state, add_state, state-add_state}
use testground.Task.Payload.{Outcome, null, result_object}
use testground.Engine.Worker.{RunFailure, Surroundings, ended, in_work, final_state}

-- `mapstructure.Decode(result, r)`, by the outcome that it leaves in `r`; an error is logged
pub record MapStructure : Type 0 where
  pub decode : Result → Outcome → Outcome
  -- a nil input leaves the target as it is
  pub decode-nil : (o : Outcome) → decode Result.no_result o ≡ o
  pub decode-null : (o : Outcome) → decode (Result.untyped null) o ≡ o
  -- a struct, or the map of its JSON form, writes the field
  pub decode-result :
      (o o' : Outcome) (text : String) → decode (Result.runner_result o' text) o ≡ o'
  pub decode-object :
      (o o' : Outcome) (text : String) → decode (Result.untyped (result_object o' text)) o ≡ o'

pub data OutcomeError : Type 0 where
  unexpected_state : State → OutcomeError
  unexpected_type : TaskType → OutcomeError
  in_error : Outcome → OutcomeError

ended_state :
    {E : Type 0} (env : Surroundings) (t : Task) (res : Result) (failure : Option RunFailure)
    → state {E = E} (ended env (in_work env t) (res, failure))
      ≡ ok (record { created = env.ended_at; state = final_state failure })
unfolding state
ended_state env t res failure = state-add_state (in_work env t) _

module _ (mapstructure : MapStructure) where
  open mapstructure use {decode, decode-nil, decode-null, decode-result, decode-object}

  -- DecodeRunnerResult, by its outcome
  unfoldable pub decode_runner_result : Result → Outcome
  decode_runner_result res = decode res Outcome.success

  abbrev outcome_of_type : TaskType → Result → Fallible OutcomeError Outcome
  outcome_of_type TaskType.build res = ok Outcome.success
  outcome_of_type TaskType.run res = ok (decode_runner_result res)
  outcome_of_type (TaskType.other s) res = err (unexpected_type (TaskType.other s))

  abbrev outcome_of_state : State → TaskType → Result → Fallible OutcomeError Outcome
  outcome_of_state State.canceled type res = ok Outcome.canceled
  outcome_of_state State.processing type res = ok Outcome.unknown
  outcome_of_state State.scheduled type res = ok Outcome.unknown
  outcome_of_state State.complete type res = outcome_of_type type res
  outcome_of_state (State.other s) type res = err (unexpected_state (State.other s))

  -- DecodeTaskOutcome
  unfoldable pub decode_task_outcome : Task → Fallible OutcomeError Outcome
  unfolding decode_runner_result
  decode_task_outcome t = do d ← state t; outcome_of_state d.state t.type t.result

  abbrev refuse_failure : Outcome → Fallible OutcomeError (Unit {0})
  refuse_failure Outcome.success = ok tt
  refuse_failure Outcome.unknown = err (in_error Outcome.unknown)
  refuse_failure Outcome.failure = err (in_error Outcome.failure)
  refuse_failure Outcome.canceled = err (in_error Outcome.canceled)

  -- IsTaskOutcomeInError
  unfoldable pub is_task_outcome_in_error : Task → Fallible OutcomeError (Unit {0})
  unfolding decode_task_outcome
  is_task_outcome_in_error t = do outcome ← decode_task_outcome t; refuse_failure outcome

  -- a build, or a run whose result decodes to success
  abbrev pub IsSuccess : TaskType → Result → Type 0
  IsSuccess type res =
      (type ≡ TaskType.build)
      ⊎ ((type ≡ TaskType.run) × (decode res Outcome.success ≡ Outcome.success))

  type-IsSuccess :
      (type : TaskType) (res : Result)
      → (outcome_of_type type res >>= refuse_failure) ≡ ok tt
      → IsSuccess type res
  unfolding decode_runner_result
  type-IsSuccess TaskType.build res h = inl refl
  type-IsSuccess TaskType.run res h = inr (refl, succeeds (decode res Outcome.success) h)
    where
      succeeds : (o : Outcome) → refuse_failure o ≡ ok tt → o ≡ Outcome.success
      succeeds Outcome.success h = refl
      succeeds Outcome.unknown h = cc h
      succeeds Outcome.failure h = cc h
      succeeds Outcome.canceled h = cc h
  type-IsSuccess (TaskType.other s) res h = cc h

  state-IsSuccess :
      (s : State) (type : TaskType) (res : Result)
      → (outcome_of_state s type res >>= refuse_failure) ≡ ok tt
      → (s ≡ State.complete) × IsSuccess type res
  state-IsSuccess State.complete type res h = (refl, type-IsSuccess type res h)
  state-IsSuccess State.canceled type res h = cc h
  state-IsSuccess State.processing type res h = cc h
  state-IsSuccess State.scheduled type res h = cc h
  state-IsSuccess (State.other s) type res h = cc h

  success_lem :
      (type : TaskType) (res : Result)
      → IsSuccess type res
      → (outcome_of_type type res >>= refuse_failure) ≡ ok tt
  unfolding decode_runner_result
  success_lem type res (inl e) = rw e refl
  success_lem type res (inr (e, o)) = rw e (rw o refl)

  -- IsTaskOutcomeInError of a task that was appended to returns nil exactly when the task is
  -- complete, and is a build, or a run whose result decodes to success.
  pub is_task_outcome_in_error_iff :
      (t : Task) (d : DatedState)
      → (is_task_outcome_in_error (add_state d t) ≡ ok tt)
        ↔ ((d.state ≡ State.complete) × IsSuccess t.type t.result)
  unfolding is_task_outcome_in_error
  is_task_outcome_in_error_iff t d = rw (state-add_state t d) (
    state-IsSuccess d.state t.type t.result,
    λ (complete, good). rw complete (success_lem t.type t.result good),
  )

  abbrev was_canceled : Option RunFailure → Bool
  was_canceled none = false
  was_canceled (some failure) = failure.is_canceled

  -- The outcome of a run that a worker ended: canceled when doRun was canceled, and otherwise what
  -- its result decodes to, whether or not doRun failed.
  pub decode_task_outcome-ended :
      (env : Surroundings) (t : Task) (res : Result) (failure : Option RunFailure)
      → t.type ≡ TaskType.run
      → decode_task_outcome (ended env (in_work env t) (res, failure))
        ≡ ok (if was_canceled failure then Outcome.canceled else decode res Outcome.success)
  unfolding decode_task_outcome
  decode_task_outcome-ended env t res failure is_run =
      rw (ended_state env t res failure) (by_failure failure)
    where
      by_failure :
          (f : Option RunFailure)
          → outcome_of_state (final_state f) t.type res
            ≡ ok (if was_canceled f then Outcome.canceled else decode res Outcome.success)
      by_failure none = rw is_run refl
      by_failure (some f) = elim (Bool-cases f.is_canceled) [
        | inl yes_canceled ↦ rw yes_canceled refl
        | inr not_canceled ↦ rw not_canceled (rw is_run refl)
      ]

  -- A run that failed without being canceled, and so has no result, is archived as complete: its
  -- outcome is success and IsTaskOutcomeInError returns nil, whatever its error is.
  pub is_task_outcome_in_error-failed :
      (env : Surroundings) (t : Task) (text : String)
      → t.type ≡ TaskType.run
      → let failure : RunFailure = record { text = text; is_canceled = false } in
        let t' = ended env (in_work env t) (Result.no_result, some failure) in
        (is_task_outcome_in_error t' ≡ ok tt) × (t'.error ≡ text)
  unfolding is_task_outcome_in_error
  is_task_outcome_in_error-failed env t text is_run = (
    rw
        (decode_task_outcome-ended env t Result.no_result
          (some (record { text = text; is_canceled = false })) is_run)
        (rw (decode-nil Outcome.success) refl),
    refl,
  )
