-- ===== src/Step.antt =====
-- packages/aws-durable-execution-sdk-js/src/handlers/step-handler/step-handler.ts: a step, from what is
-- recorded of it to its end. `Operation` is what the server holds for the step; a read of the step's
-- data sees it, since it follows an answer or reads the count of attempts, which a START leaves alone.
-- The texts of results come from `serialize`, or nothing where it fails, and `readable` tells which
-- texts can be deserialized. The hooks of plugins and the log are left out, and the check that precedes is in ReplayValidation.
-- `server` is what the server makes of an accepted update, `timer` what has become of an operation when
-- its retry timer has run out, `fn` the customer's function by the number of the attempt. The attempts
-- take fuel.
mod Tests
pub mod AtMostOnce
pub mod Ends
pub mod Protocol
pub mod Stored
use aws_durable_execution_sd.Common.{
  ℕ, zero, suc, ◌+◌, Bool, true, false, ◌&&◌, ◌||◌, Option, none, some, List, [], ◌∷◌, Text, codes,
  get_or, if◌then◌else◌,
}
use aws_durable_execution_sd.Wire.{
  step, OperationStatus, started, succeeded, failed, pending, OperationAction, start, succeed, fail,
  retry, StepDetails, Operation, OperationUpdate, ErrorObject, has_status,
}
use aws_durable_execution_sd.Batch.Serial.{
  SdkError, uncaused, durable, step_error, from_error_object,
}
use aws_durable_execution_sd.Checkpoint.{
  OperationLifecycleState, executing, retry_waiting, completed,
}
use aws_durable_execution_sd.Retry.{
  RetryDecision, give_up, retry_after, Duration, duration_to_seconds,
}
use aws_durable_execution_sd.Retry.Loop.{Attempt, returned, threw}

pub data StepSemantics : Type 0 where
  at_least_once_per_retry at_most_once_per_retry : StepSemantics

-- What the handler does to its surroundings: `sends` an update and awaits that the server has it, or
-- `enqueues` it and goes on; an update stands with the operation that it meets.
pub data Effect : Type 0 where
  sends enqueues : OperationUpdate → Option Operation → Effect
  marks : OperationLifecycleState → Effect
  awaits_retry_timer : Effect

-- How the step's promise ends: with the text that is deserialized to its value, with an error, or
-- never, since the invocation has been terminated.
pub data StepOutcome : Type 0 where
  resolves : Option Text → StepOutcome
  rejects : SdkError → StepOutcome
  terminates : StepOutcome

abbrev pub StepRun : Type 0
StepRun = StepOutcome × List Effect

abbrev pub with_effects : List Effect → Option StepRun → Option StepRun
with_effects [] r = r
with_effects (e ∷ es) r = elim (with_effects es r) [
  | none ↦ none
  | some (o, trace) ↦ some (o, e ∷ trace)
]

abbrev pub status_of : Option Operation → Option OperationStatus
status_of none = none
status_of (some op) = op.status

abbrev pub step_details_of : Option Operation → Option StepDetails
step_details_of none = none
step_details_of (some op) = op.step_details

-- `stepData?.StepDetails?.Attempt || 0`
abbrev pub attempts_of : Option Operation → ℕ
attempts_of o = elim (step_details_of o) [ none ↦ 0 | some d ↦ get_or d.attempt 0 ]

abbrev recorded_result : Option Operation → Option Text
recorded_result o = elim (step_details_of o) [ none ↦ none | some d ↦ d.result ]

abbrev recorded_error : Option Operation → Option ErrorObject
recorded_error o = elim (step_details_of o) [ none ↦ none | some d ↦ d.error ]

-- `{ Id, ParentId, Action, SubType, Type, Name }`
abbrev pub step_update :
    Text → Option Text → Option Text → Option Text → OperationAction → OperationUpdate
step_update step_id parent_id name sub_type action = record {
  id = some step_id;
  parent_id = parent_id;
  name = name;
  type = some step;
  sub_type = sub_type;
  action = some action;
  payload = none;
  error = none;
  context_options = none;
  step_options = none;
  wait_options = none;
  callback_options = none;
  chained_invoke_options = none;
}

abbrev pub delay_seconds : Option Duration → ℕ
delay_seconds none = 1
delay_seconds (some d) = duration_to_seconds d

module _ {A E : Type 0} (step_id : Text) (parent_id name sub_type : Option Text)
    (semantics : StepSemantics) (strategy : E → ℕ → RetryDecision)
    (serialize : A → Option (Option Text)) (readable : Option Text → Bool)
    (unrecoverable : E → Bool) (error_object : E → ErrorObject) (interrupted : E)
    (server : OperationUpdate → Option Operation → Operation) (timer : Operation → Operation)
    (fn : ℕ → Attempt A E) where
  abbrev update : OperationAction → OperationUpdate
  update action = step_update step_id parent_id name sub_type action

  abbrev succeed_update : Option Text → OperationUpdate
  succeed_update text = record (update succeed) { payload = text }

  abbrev fail_update : E → OperationUpdate
  fail_update e = record (update fail) { error = some (error_object e) }

  abbrev pub retry_update : E → Option Duration → OperationUpdate
  retry_update e d = record (update retry) {
    error = some (error_object e);
    step_options = some (record { next_attempt_delay_seconds = some (delay_seconds d) });
  }

  -- A step that fails for good.
  abbrev pub failing : E → Option Operation → List Effect
  failing e op = sends (fail_update e) op ∷ marks completed ∷ []

  -- A step that is tried again, up to the end of its retry timer.
  abbrev pub retrying : E → Option Duration → Option Operation → List Effect
  retrying e d op = sends (retry_update e d) op ∷ marks retry_waiting ∷ awaits_retry_timer ∷ []

  abbrev pub after_retry : E → Option Duration → Option Operation → Operation
  after_retry e d op = timer (server (retry_update e d) op)

  pub by_decision :
      E → Option Operation → RetryDecision → (Operation → Option StepRun) → Option StepRun
  by_decision e op give_up more =
      with_effects (failing e op) (some (rejects (from_error_object (error_object e)), []))
  by_decision e op (retry_after d) more = with_effects (retrying e d op) (more (after_retry e d op))

  -- What is read back from a text; a text that cannot be read terminates the invocation.
  abbrev pub read_back : Option Text → StepOutcome
  read_back text = if readable text then resolves text else terminates

  -- The end of an attempt that has returned; `safeSerialize` terminates the invocation when it fails.
  pub by_serialized : Option (Option Text) → Option Operation → Option StepRun
  by_serialized none op = some (terminates, [])
  by_serialized (some text) op =
      some (read_back text, sends (succeed_update text) op ∷ marks completed ∷ [])

  pub by_attempt : Attempt A E → Option Operation → (Operation → Option StepRun) → Option StepRun
  unfolding by_decision by_serialized
  by_attempt (returned a) op more = by_serialized (serialize a) op
  by_attempt (threw e) op more =
      if unrecoverable e
      then some (terminates, [])
      else by_decision e op (strategy e (attempts_of op + 1)) more

  abbrev is_started : Option Operation → Bool
  is_started op = has_status started (status_of op)

  -- The operation once the server has the START; a step's later updates are queued behind it.
  abbrev pub begun : Option Operation → Option Operation
  begun op = if is_started op then op else some (server (update start) op)

  -- The START is awaited with at-most-once semantics only.
  abbrev pub start_effect : StepSemantics → Option Operation → Effect
  start_effect at_least_once_per_retry op = enqueues (update start) op
  start_effect at_most_once_per_retry op = sends (update start) op

  abbrev pub beginning : Option Operation → List Effect
  beginning op =
      if is_started op
      then marks executing ∷ []
      else start_effect semantics op ∷ marks executing ∷ []

  -- What the handler can read of the step when the function runs.
  abbrev pub seen : StepSemantics → Option Operation → Option Operation
  seen at_least_once_per_retry op = op
  seen at_most_once_per_retry op = begun op

  -- `executeStepLogic`.
  unfoldable pub execute_step_logic : ℕ → Option Operation → Option StepRun
  unfolding by_attempt
  execute_step_logic zero op = none
  execute_step_logic (suc fuel) op = with_effects (beginning op) (
      by_attempt (fn (attempts_of (seen semantics op) + 1)) (begun op)
        (λ op'. execute_step_logic fuel (some op')))

  abbrev recorded_failure : Option ErrorObject → SdkError
  recorded_failure none = uncaused (durable step_error none) (codes "Unknown error")
  recorded_failure (some e) = from_error_object e

  abbrev pub is_interrupted : StepSemantics → Option Operation → Bool
  is_interrupted at_least_once_per_retry op = false
  is_interrupted at_most_once_per_retry op = is_started op

  pub by_status : ℕ → Option OperationStatus → Operation → Option StepRun
  unfolding execute_step_logic by_decision
  by_status fuel (some succeeded) op =
      some (read_back (recorded_result (some op)), marks completed ∷ [])
  by_status fuel (some failed) op =
      some (rejects (recorded_failure (recorded_error (some op))), marks completed ∷ [])
  by_status fuel (some pending) op =
      with_effects (marks retry_waiting ∷ awaits_retry_timer ∷ [])
        (execute_step_logic fuel (some (timer op)))
  by_status fuel status op =
      if is_interrupted semantics (some op)
      then by_decision interrupted (some op) (strategy interrupted (attempts_of (some op) + 1))
          (λ op'. execute_step_logic fuel (some op'))
      else execute_step_logic fuel (some op)

  -- The body of the first phase, on what is recorded of the step.
  unfoldable pub run_step : ℕ → Option Operation → Option StepRun
  unfolding by_status
  run_step fuel none = execute_step_logic fuel none
  run_step fuel (some op) = by_status fuel op.status op
