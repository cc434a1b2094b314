-- ===== src/Server/Storage/Update.antt =====
-- checkpoint-server/storage/checkpoint-manager.ts: `updateOperation`, by which the test runner ends
-- waits, invokes and the execution; with the tables of wait-details.ts, chained-invoke-details.ts
-- and execution-details.ts. A field that is absent from the partial operation is left as it is.
pub mod Kept
use aws_durable_execution_sd.Common.{
  ℕ, Bool, true, false, ◌&&◌, Option, none, some, List, [], ◌∷◌, Text, is_some, if◌then◌else◌,
}
use aws_durable_execution_sd.Wire.{
  OperationType, chained_invoke, execution, wait, OperationStatus, cancelled, failed, started,
  stopped, succeeded, timed_out, ChainedInvokeDetails, ErrorObject, Operation, has_type,
}
use aws_durable_execution_sd.Server.Storage.Events.{
  Event, EventDetails, waits, ended, EventType, execution_started, execution_failed,
  execution_succeeded, execution_stopped, execution_timed_out, chained_invoke_failed,
  chained_invoke_succeeded, chained_invoke_stopped, chained_invoke_timed_out, wait_succeeded,
  wait_cancelled, Payload, payload_of, create_history_event,
}
use aws_durable_execution_sd.Server.Storage.{
  Store, OperationEvents, CheckpointOperation, Outcome, returns, throws, Failure,
  operation_not_found, missing_status, invalid_status_update, result_and_error, get_operation_data,
  events_of, next_event, push, add_operation_update,
}

abbrev or_else : {A : Type 0} → Option A → Option A → Option A
or_else none b = b
or_else (some a) b = some a

-- `{ ...operation, ...newOperation }`
abbrev pub merge : Operation → Operation → Operation
merge op new = record {
  id = or_else new.id op.id;
  parent_id = or_else new.parent_id op.parent_id;
  name = or_else new.name op.name;
  type = or_else new.type op.type;
  sub_type = or_else new.sub_type op.sub_type;
  start_timestamp = or_else new.start_timestamp op.start_timestamp;
  end_timestamp = or_else new.end_timestamp op.end_timestamp;
  status = or_else new.status op.status;
  execution_details = or_else new.execution_details op.execution_details;
  context_details = or_else new.context_details op.context_details;
  step_details = or_else new.step_details op.step_details;
  wait_details = or_else new.wait_details op.wait_details;
  callback_details = or_else new.callback_details op.callback_details;
  chained_invoke_details = or_else new.chained_invoke_details op.chained_invoke_details;
}

abbrev pub wait_history_details : OperationStatus → Option EventType
wait_history_details cancelled = some wait_cancelled
wait_history_details succeeded = some wait_succeeded
wait_history_details _ = none

abbrev pub chained_invoke_history_details : OperationStatus → Option EventType
chained_invoke_history_details stopped = some chained_invoke_stopped
chained_invoke_history_details failed = some chained_invoke_failed
chained_invoke_history_details succeeded = some chained_invoke_succeeded
chained_invoke_history_details timed_out = some chained_invoke_timed_out
chained_invoke_history_details _ = none

abbrev pub execution_history_details : OperationStatus → Option EventType
execution_history_details stopped = some execution_stopped
execution_history_details failed = some execution_failed
execution_history_details started = some execution_started
execution_history_details succeeded = some execution_succeeded
execution_history_details timed_out = some execution_timed_out
execution_history_details _ = none

-- `events.at(0)?.WaitStartedDetails?.Duration`
abbrev started_duration : EventDetails → Option ℕ
started_duration (waits duration end) = duration
started_duration _ = none

abbrev first_duration : List Event → Option ℕ
first_duration [] = none
first_duration (e ∷ es) = started_duration e.details

abbrev some_payload : {A : Type 0} → Option A → Option (Payload A)
some_payload none = none
some_payload (some a) = some (payload_of (some a))

abbrev invoke_result : Option ChainedInvokeDetails → Option Text
invoke_result none = none
invoke_result (some d) = d.result

abbrev invoke_error : Option ChainedInvokeDetails → Option ErrorObject
invoke_error none = none
invoke_error (some d) = d.error

-- `Result && Error`: the empty text is falsy.
abbrev has_both : Option Text → Option ErrorObject → Bool
has_both (some (c ∷ t)) e = is_some e
has_both _ e = false

after_add : OperationEvents → Outcome (Unit {0}) × Store → Outcome OperationEvents × Store
after_add d (returns _, s) = (returns d, s)
after_add d (throws f, s) = (throws f, s)

publish : OperationEvents → Store → Outcome OperationEvents × Store
unfolding after_add add_operation_update
publish d s =
    after_add d (
      add_operation_update (record { operation = d.operation; events = d.events; update = none }) s)

module _ (now : ℕ) where
  abbrev record_event : EventType → EventDetails → OperationEvents → Store → Store
  record_event t details d s =
      push d.events (create_history_event now (t, details) d.operation s.event_id) (next_event s)

  update_wait : Option EventType → OperationEvents → Store → Outcome OperationEvents × Store
  unfolding create_history_event push publish
  update_wait none d s = (throws invalid_status_update, s)
  update_wait (some t) d s =
      publish d (record_event t (waits (first_duration (events_of s d.events)) none) d s)

  update_invoke : Option EventType → OperationEvents → Store → Outcome OperationEvents × Store
  unfolding create_history_event push publish
  update_invoke none d s = (throws invalid_status_update, s)
  update_invoke (some t) d s =
      let result = invoke_result d.operation.chained_invoke_details in
      let error = invoke_error d.operation.chained_invoke_details in
      if has_both result error
      then (throws result_and_error, s)
      else publish d (record_event t (ended (some_payload result) (some_payload error)) d s)

  update_execution :
      Option Text
      → Option ErrorObject
      → Option EventType
      → OperationEvents
      → Store
      → Outcome OperationEvents × Store
  unfolding create_history_event push publish
  update_execution payload error none d s = (throws invalid_status_update, s)
  update_execution payload error (some t) d s =
      publish d (record (record_event t (ended (some_payload payload) (some_payload error)) d s) {
        is_execution_completed = true;
      })

  update_by_type :
      Option OperationType
      → OperationStatus
      → Option Text
      → Option ErrorObject
      → OperationEvents
      → Store
      → Outcome OperationEvents × Store
  unfolding update_wait update_invoke update_execution publish
  update_by_type (some wait) status payload error d s =
      update_wait (wait_history_details status) d s
  update_by_type (some chained_invoke) status payload error d s =
      update_invoke (chained_invoke_history_details status) d s
  update_by_type (some execution) status payload error d s =
      update_execution payload error (execution_history_details status) d s
  update_by_type _ status payload error d s = publish d s

  update_with :
      Operation
      → Option Text
      → Option ErrorObject
      → Option OperationStatus
      → OperationEvents
      → Store
      → Outcome OperationEvents × Store
  unfolding update_by_type publish
  update_with new payload error none d s = (throws missing_status, s)
  update_with new payload error (some status) d s =
      if has_type execution d.operation.type && s.is_execution_completed
      then publish d s
      else (let merged = merge d.operation new in
          update_by_type merged.type status payload error
            (record { operation = merged; events = d.events }) s)

  update_found :
      Operation
      → Option Text
      → Option ErrorObject
      → Option OperationEvents
      → Store
      → Outcome OperationEvents × Store
  unfolding update_with
  update_found new payload error none s = (throws operation_not_found, s)
  update_found new payload error (some d) s = update_with new payload error new.status d s

  unfoldable pub update_operation :
      Text → Operation → Option Text → Option ErrorObject → Store → Outcome OperationEvents × Store
  unfolding update_found
  update_operation id new payload error s =
      update_found new payload error (get_operation_data s id) s
