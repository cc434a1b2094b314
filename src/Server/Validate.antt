-- ===== src/Server/Validate.antt =====
-- checkpoint-server/validators: which checkpoint updates the server accepts. An
-- `InvalidParameterValueException` is a value of `Rejection`, one for each message.
mod Tests
pub mod Batch
pub mod Transitions
pub mod Request
pub mod Accepted
use aws_durable_execution_sd.Common.{
  ℕ, ◌≡◌, refl, Bool, true, false, not, ◌&&◌, ◌||◌, Option, none, some, List, [], ◌∷◌, Text,
  Text-discrete, ltb, leb, if◌then◌else◌, is_some, keep, length, arith,
}
use aws_durable_execution_sd.Common.Map
use aws_durable_execution_sd.Wire.{
  OperationType, callback, chained_invoke, context, execution, step, wait, OperationStatus, ready,
  started, OperationAction, cancel, fail, retry, start, succeed, Operation, OperationUpdate,
  has_type, has_status,
}

pub data Rejection : Type 0 where
  multiple_execution execution_not_last error_too_large no_id duplicate_update invalid_parent :
      Rejection
  unknown_type invalid_action already_exists cannot_cancel invalid_state_to_close
        invalid_state_to_start invalid_state_to_reattempt :
      Rejection
  payload_with_fail error_with_succeed no_step_options error_and_payload : Rejection

-- `ok tt` is a validator that returns, `reject r` one that throws.
pub data Result {ℓ} (A : Type ℓ) : Type ℓ where
  ok : A → Result A
  reject : Rejection → Result A

infixl 5 ◌>>=◌ ◌>>◌
abbrev pub ◌>>=◌ {ℓ κ} : {A : Type ℓ} {B : Type κ} → Result A → (A → Result B) → Result B
ok a >>= f = f a
reject r >>= f = reject r

abbrev pub ◌>>◌ {ℓ} : {B : Type ℓ} → Result (Unit {0}) → Result B → Result B
m >> k = m >>= λ _. k

-- `if (bad) throw …`
abbrev pub throw_if : Bool → Rejection → Result (Unit {0})
throw_if true r = reject r
throw_if false r = ok tt

abbrev pub max_error_payload_size_bytes : ℕ
max_error_payload_size_bytes = 32768

-- The operations that the server holds, by id (their events are not read here).
abbrev pub Operations : Type 0
Operations = List (Text × Operation)

abbrev pub Updates : Type 0
Updates = List (Text × OperationUpdate)

abbrev pub find_operation : Operations → Text → Option Operation
find_operation ops id = Map.get Text-discrete ops id

-- The valid actions of each operation type, `VALID_ACTIONS_FOR_…`.
unfoldable pub is_valid_action : OperationType → OperationAction → Bool
is_valid_action step cancel = false
is_valid_action step _ = true
is_valid_action context start = true
is_valid_action context fail = true
is_valid_action context succeed = true
is_valid_action context _ = false
is_valid_action wait start = true
is_valid_action wait cancel = true
is_valid_action wait _ = false
is_valid_action callback start = true
is_valid_action callback cancel = true
is_valid_action callback _ = false
is_valid_action chained_invoke start = true
is_valid_action chained_invoke cancel = true
is_valid_action chained_invoke _ = false
is_valid_action execution succeed = true
is_valid_action execution fail = true
is_valid_action execution _ = false

unfoldable pub validate_valid_actions_by_operation_type :
    Option OperationType → Option OperationAction → Result (Unit {0})
validate_valid_actions_by_operation_type none action = reject unknown_type
validate_valid_actions_by_operation_type (some type) none = reject invalid_action
validate_valid_actions_by_operation_type (some type) (some action) =
    throw_if (not (is_valid_action type action)) invalid_action

-- `operation && !allowed.includes(operation.Status)`
abbrev bad_status : (Option OperationStatus → Bool) → Option Operation → Bool
bad_status allowed none = false
bad_status allowed (some op) = not (allowed op.status)

abbrev is_started : Option OperationStatus → Bool
is_started = has_status started

abbrev is_ready : Option OperationStatus → Bool
is_ready = has_status ready

abbrev is_started_or_ready : Option OperationStatus → Bool
is_started_or_ready s = is_started s || is_ready s

-- `validateCallbackOperation`, `validateChainedInvokeOperation` and `validateWaitOperation`: the
-- three bodies are the same but for the text of their messages.
cancellable_operation : Option OperationAction → Option Operation → Result (Unit {0})
cancellable_operation (some start) op = throw_if (is_some op) already_exists
cancellable_operation (some cancel) none = reject cannot_cancel
cancellable_operation (some cancel) (some op) = throw_if (not (is_started op.status)) cannot_cancel
cancellable_operation _ op = reject invalid_action

validate_callback_operation : OperationUpdate → Option Operation → Result (Unit {0})
unfolding cancellable_operation
validate_callback_operation u op = cancellable_operation u.action op

validate_chained_invoke_operation : OperationUpdate → Option Operation → Result (Unit {0})
unfolding cancellable_operation
validate_chained_invoke_operation u op = cancellable_operation u.action op

validate_wait_operation : OperationUpdate → Option Operation → Result (Unit {0})
unfolding cancellable_operation
validate_wait_operation u op = cancellable_operation u.action op

context_action : Option OperationAction → OperationUpdate → Option Operation → Result (Unit {0})
context_action (some start) u op = throw_if (is_some op) already_exists
context_action (some fail) u op = do
  throw_if (bad_status is_started op) invalid_state_to_close
  throw_if (is_some u.payload) payload_with_fail
context_action (some succeed) u op = do
  throw_if (bad_status is_started op) invalid_state_to_close
  throw_if (is_some u.error) error_with_succeed
context_action _ u op = reject invalid_action

validate_context_operation : OperationUpdate → Option Operation → Result (Unit {0})
unfolding context_action
validate_context_operation u op = context_action u.action u op

execution_action : Option OperationAction → OperationUpdate → Result (Unit {0})
execution_action (some succeed) u = throw_if (is_some u.error) error_with_succeed
execution_action (some fail) u = throw_if (is_some u.payload) payload_with_fail
execution_action _ u = reject invalid_action

validate_execution_operation : OperationUpdate → Result (Unit {0})
unfolding execution_action
validate_execution_operation u = execution_action u.action u

step_action : Option OperationAction → OperationUpdate → Option Operation → Result (Unit {0})
step_action (some start) u op = throw_if (bad_status is_ready op) invalid_state_to_start
step_action (some fail) u op = do
  throw_if (bad_status is_started_or_ready op) invalid_state_to_close
  throw_if (is_some u.payload) payload_with_fail
step_action (some succeed) u op = do
  throw_if (bad_status is_started_or_ready op) invalid_state_to_close
  throw_if (is_some u.error) error_with_succeed
step_action (some retry) u op = do
  throw_if (bad_status is_started_or_ready op) invalid_state_to_reattempt
  throw_if (not (is_some u.step_options)) no_step_options
  throw_if (is_some u.error && is_some u.payload) error_and_payload
step_action _ u op = reject invalid_action

validate_step_operation : OperationUpdate → Option Operation → Result (Unit {0})
unfolding step_action
validate_step_operation u op = step_action u.action u op

status_transition : Option OperationType → OperationUpdate → Option Operation → Result (Unit {0})
unfolding validate_callback_operation validate_context_operation validate_execution_operation
    validate_chained_invoke_operation validate_step_operation validate_wait_operation
status_transition (some callback) u op = validate_callback_operation u op
status_transition (some context) u op = validate_context_operation u op
status_transition (some execution) u op = validate_execution_operation u
status_transition (some chained_invoke) u op = validate_chained_invoke_operation u op
status_transition (some step) u op = validate_step_operation u op
status_transition (some wait) u op = validate_wait_operation u op
status_transition none u op = reject unknown_type

unfoldable pub validate_operation_status_transition :
    OperationUpdate → Option Operation → Result (Unit {0})
unfolding status_transition
validate_operation_status_transition u op = status_transition u.type u op
