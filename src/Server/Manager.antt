-- ===== src/Server/Manager.antt =====
-- checkpoint-server/storage/execution-manager.ts and checkpoint-server/handlers: the calls of the
-- server, each on the store of its execution. What a call throws is a value of `RequestFailure`, beside
-- the executions. `encode` and `decode` make and read callback ids, `encode_token` and `decode_token`
-- checkpoint tokens: the base64 text of a JSON object. Times and random texts are arguments.
mod Tests
pub mod Answered
use aws_durable_execution_sd.Common.{
  ℕ, Bool, true, false, not, Option, none, some, List, [], ◌∷◌, Text, Text-discrete, present,
  get_or, is_empty, if◌then◌else◌, map,
}
use aws_durable_execution_sd.Common.Map
use aws_durable_execution_sd.Wire.{CallbackDetails, ErrorObject, Operation, OperationUpdate}
use aws_durable_execution_sd.Server.Validate.{Rejection, Result, ok, reject, Operations}
use aws_durable_execution_sd.Server.Validate.Batch.{validate_checkpoint_updates}
use aws_durable_execution_sd.Server.Storage.Events.{
  Event, invocation_completed, invoked, payload_of,
}
use aws_durable_execution_sd.Server.Storage.{
  Store, OperationEvents, CheckpointOperation, Outcome, returns, throws, Failure, new_store,
  has_operation, has_dirty_operations, next_event,
}
use aws_durable_execution_sd.Server.Storage.Session.{
  initialize, get_dirty_operations, start_invocation, complete_invocation,
  get_pending_checkpoint_updates,
}
use aws_durable_execution_sd.Server.Storage.Callbacks.{
  CompleteCallbackStatus, succeeded, failed, complete_callback_checked, heartbeat_callback, cleanup,
}
use aws_durable_execution_sd.Server.Storage.Register.{register_updates}
use aws_durable_execution_sd.Server.Storage.Update.{update_operation}
use aws_durable_execution_sd.Server.Storage.State.{get_state}

abbrev pub Executions : Type 0
Executions = List (Text × Store)

pub data RequestFailure : Type 0 where
  execution_not_found operation_missing token_required undecodable_token execution_completed :
      RequestFailure
  rejected : Rejection → RequestFailure
  store_throws : Failure → RequestFailure

pub data Response {ℓ} (A : Type ℓ) : Type ℓ where
  responds : A → Response A
  fails : RequestFailure → Response A

pub record InvocationResult : Type 0 where
  pub checkpoint_token : Text
  pub execution_id : Text
  pub invocation_id : Text
  pub operation_events : List OperationEvents
  pub updated_operation_ids : List Text

pub record CheckpointAnswer : Type 0 where
  pub checkpoint_token : Text
  pub operations : List Operation

abbrev pub get_checkpoints_by_execution : Executions → Text → Option Store
get_checkpoints_by_execution es id = Map.get Text-discrete es id

abbrev pub put_store : Executions → Text → Store → Executions
put_store es id s = Map.set Text-discrete es id s

abbrev from_outcome :
    {A B : Type 0} → (A → B) → Executions → Text → Outcome A × Store → Response B × Executions
from_outcome f es id (returns a, s) = (responds (f a), put_store es id s)
from_outcome f es id (throws x, s) = (fails (store_throws x), put_store es id s)

-- The operations that the validators see.
abbrev pub held_operations : Store → Operations
held_operations s = map (λ e. (e.0, e.1.operation)) s.operation_data_map

module _ (encode_token : Text → Text → Text → Text) where
  start_with :
      Executions
      → Text
      → Text
      → Text
      → Outcome OperationEvents × Store
      → Response InvocationResult × Executions
  start_with es token execution_id invocation_id r =
      from_outcome
        (λ first. record {
          checkpoint_token = encode_token execution_id token invocation_id;
          execution_id = execution_id;
          invocation_id = invocation_id;
          operation_events = first ∷ [];
          updated_operation_ids = [];
        })
        es execution_id r

  unfoldable pub start_execution :
      ℕ
      → Text
      → Text
      → Text
      → Text
      → Option Text
      → Executions
      → Response InvocationResult × Executions
  unfolding start_with start_invocation initialize
  start_execution now operation_id token execution_id invocation_id payload es =
      let (first, s) = start_invocation now invocation_id (new_store execution_id) in
      start_with es token execution_id invocation_id (initialize now operation_id payload s)

  invoke_store :
      ℕ → Text → Text → Text → Option Store → Executions → Response InvocationResult × Executions
  unfolding start_invocation
  invoke_store now token execution_id invocation_id none es = (fails execution_not_found, es)
  invoke_store now token execution_id invocation_id (some s) es =
      if s.is_execution_completed
      then (fails execution_completed, es)
      else (let ((operation_events, updated), s') = start_invocation now invocation_id s in
          (
            responds (record {
              checkpoint_token = encode_token execution_id token invocation_id;
              execution_id = execution_id;
              invocation_id = invocation_id;
              operation_events = operation_events;
              updated_operation_ids = updated;
            }),
            put_store es execution_id s',
          ))

  -- `ExecutionManager.startInvocation`.
  unfoldable pub start_next_invocation :
      ℕ → Text → Text → Text → Executions → Response InvocationResult × Executions
  unfolding invoke_store
  start_next_invocation now token execution_id invocation_id es =
      invoke_store now token execution_id invocation_id
        (get_checkpoints_by_execution es execution_id) es

-- `createHistoryEvent` without an operation.
abbrev completed_event : ℕ → ℕ → Text → Option ErrorObject → ℕ → Event
completed_event now since invocation_id error event_id = record {
  event_type = invocation_completed;
  sub_type = none;
  event_id = event_id;
  id = none;
  name = none;
  event_timestamp = now;
  parent_id = none;
  details = invoked since now (payload_of error) invocation_id;
}

complete_with :
    ℕ
    → Text
    → Text
    → Option ErrorObject
    → Executions
    → Outcome ℕ × Store
    → Response (Event × Bool) × Executions
unfolding has_dirty_operations
complete_with now execution_id invocation_id error es (throws f, s) =
    (fails (store_throws f), put_store es execution_id s)
complete_with now execution_id invocation_id error es (returns since, s) = (
  responds (completed_event now since invocation_id error s.event_id, has_dirty_operations s),
  put_store es execution_id (next_event s),
)

complete_store :
    ℕ
    → Text
    → Text
    → Option ErrorObject
    → Option Store
    → Executions
    → Response (Event × Bool) × Executions
unfolding complete_with complete_invocation
complete_store now execution_id invocation_id error none es = (fails execution_not_found, es)
complete_store now execution_id invocation_id error (some s) es =
    complete_with now execution_id invocation_id error es (complete_invocation invocation_id s)

-- `ExecutionManager.completeInvocation`.
unfoldable pub complete_running_invocation :
    ℕ → Text → Text → Option ErrorObject → Executions → Response (Event × Bool) × Executions
unfolding complete_store
complete_running_invocation now execution_id invocation_id error es =
    complete_store now execution_id invocation_id error
      (get_checkpoints_by_execution es execution_id) es

update_store :
    ℕ
    → Text
    → Text
    → Operation
    → Option Text
    → Option ErrorObject
    → Option Store
    → Executions
    → Response OperationEvents × Executions
unfolding has_operation update_operation
update_store now execution_id id new payload error none es = (fails execution_not_found, es)
update_store now execution_id id new payload error (some s) es =
    if not (has_operation (some id) s)
    then (fails operation_missing, es)
    else from_outcome (λ d. d) es execution_id (update_operation now id new payload error s)

unfoldable pub process_update_checkpoint_data :
    ℕ
    → Text
    → Text
    → Operation
    → Option Text
    → Option ErrorObject
    → Executions
    → Response OperationEvents × Executions
unfolding update_store
process_update_checkpoint_data now execution_id id new payload error es =
    update_store now execution_id id new payload error
      (get_checkpoints_by_execution es execution_id) es

poll_store :
    Text → Option Store → Executions → Response (Option (List CheckpointOperation)) × Executions
unfolding get_pending_checkpoint_updates
poll_store id none es = (fails execution_not_found, es)
poll_store id (some s) es =
    let (updates, s') = get_pending_checkpoint_updates s in (responds updates, put_store es id s')

-- Up to the `await`: `none` while there is nothing to give.
unfoldable pub process_poll_checkpoint_data :
    Text → Executions → Response (Option (List CheckpointOperation)) × Executions
unfolding poll_store
process_poll_checkpoint_data id es = poll_store id (get_checkpoints_by_execution es id) es

state_of : Option Store → Response (List Operation)
unfolding get_state
state_of none = fails execution_not_found
state_of (some s) = responds (get_state s)

unfoldable pub process_get_durable_execution_state : Text → Executions → Response (List Operation)
unfolding state_of
process_get_durable_execution_state id es = state_of (get_checkpoints_by_execution es id)

abbrev clean_all : Executions → Executions
clean_all [] = []
clean_all ((id, s) ∷ es) = (id, cleanup s) ∷ clean_all es

-- `ExecutionManager.cleanup`.
unfoldable pub cleanup_executions : Executions → Executions
cleanup_executions es = clean_all es

abbrev no_error : ErrorObject
no_error = record { error_message = none; error_type = none; error_data = none; stack_trace = none }

-- `decode` gives the execution's id and the operation's.
module _ (decode : Text → Option (Text × Text)) (now : ℕ) where
  abbrev pub operation_id_of : Text → Option Text
  operation_id_of callback_id = elim (decode callback_id) [ none ↦ none | some ids ↦ some ids.1 ]

  abbrev pub execution_id_of : Text → Option Text
  execution_id_of callback_id = elim (decode callback_id) [ none ↦ none | some ids ↦ some ids.0 ]

  on_execution :
      {A : Type 0}
      → (Store → Outcome A × Store)
      → Option Text
      → Executions
      → Response (Unit {0}) × Executions
  on_execution f none es = (fails execution_not_found, es)
  on_execution f (some id) es = elim (get_checkpoints_by_execution es id) [
    | none ↦ (fails execution_not_found, es)
    | some s ↦ from_outcome (λ a. tt) es id (f s)
  ]

  unfoldable pub process_callback_failure :
      Text → Option ErrorObject → Executions → Response (Unit {0}) × Executions
  unfolding on_execution complete_callback_checked
  process_callback_failure callback_id input es =
      on_execution
        (complete_callback_checked operation_id_of now
          (record {
            callback_id = some callback_id;
            result = none;
            error = some (get_or input no_error);
          })
          failed)
        (execution_id_of callback_id) es

  -- The input is a buffer, as its text.
  unfoldable pub process_callback_success :
      Text → Text → Executions → Response (Unit {0}) × Executions
  unfolding on_execution complete_callback_checked
  process_callback_success callback_id input es =
      on_execution
        (complete_callback_checked operation_id_of now
          (record {
            callback_id = some callback_id;
            result = if is_empty input then none else some input;
            error = none;
          })
          succeeded)
        (execution_id_of callback_id) es

  unfoldable pub process_callback_heartbeat : Text → Executions → Response (Unit {0}) × Executions
  unfolding on_execution heartbeat_callback
  process_callback_heartbeat callback_id es =
      on_execution (heartbeat_callback operation_id_of now callback_id)
        (execution_id_of callback_id) es

module _ (wire_size : OperationUpdate → ℕ) (encode : Text → Text → Text → Text)
    (encode_token : Text → Text → Text → Text) (decode_token : Text → Option (Text × Text))
    (now : ℕ) (callback_token token : Text) where
  answer_with : Text × Text → Outcome (List Operation) × Store → Response CheckpointAnswer × Store
  answer_with ids (throws f, s) = (fails (store_throws f), s)
  answer_with ids (returns ops, s) =
      (responds (record { checkpoint_token = encode_token ids.0 token ids.1; operations = ops }), s)

  answer_registered :
      Text × Text → Outcome (List OperationEvents) × Store → Response CheckpointAnswer × Store
  unfolding answer_with get_dirty_operations
  answer_registered ids (throws f, s) = (fails (store_throws f), s)
  answer_registered ids (returns ds, s) = answer_with ids (get_dirty_operations s)

  answer_validated :
      Text × Text
      → List OperationUpdate
      → Result (Unit {0})
      → Store
      → Response CheckpointAnswer × Store
  unfolding answer_registered register_updates
  answer_validated ids us (reject r) s = (fails (rejected r), s)
  answer_validated ids us (ok _) s =
      answer_registered ids (register_updates encode now callback_token us s)

  answer_decoded :
      Option (Text × Text) → List OperationUpdate → Store → Response CheckpointAnswer × Store
  unfolding answer_validated validate_checkpoint_updates
  answer_decoded none us s = (fails undecodable_token, s)
  answer_decoded (some ids) us s =
      answer_validated ids us (validate_checkpoint_updates wire_size us (held_operations s)) s

  -- The request on the store of its execution, with the token that it carries.
  pub answer_request :
      Option Text → List OperationUpdate → Store → Response CheckpointAnswer × Store
  unfolding answer_decoded
  answer_request none us s = (fails token_required, s)
  answer_request (some t) us s = answer_decoded (decode_token t) us s

  checkpoint_store :
      Text
      → Option Text
      → List OperationUpdate
      → Option Store
      → Executions
      → Response CheckpointAnswer × Executions
  unfolding answer_request
  checkpoint_store id checkpoint_token us none es = (fails execution_not_found, es)
  checkpoint_store id checkpoint_token us (some s) es =
      let (r, s') = answer_request (present checkpoint_token) us s in (r, put_store es id s')

  unfoldable pub process_checkpoint_durable_execution :
      Text
      → Option Text
      → Option (List OperationUpdate)
      → Executions
      → Response CheckpointAnswer × Executions
  unfolding checkpoint_store
  process_checkpoint_durable_execution id checkpoint_token updates es =
      checkpoint_store id checkpoint_token (get_or updates []) (get_checkpoints_by_execution es id)
        es
