-- ===== src/Server/Storage/Session.antt =====
-- checkpoint-server/storage/checkpoint-manager.ts: invocations, the operations that changed since the
-- last answer, the poll for updates, and the first operation of an execution.
pub mod Kept
use aws_durable_execution_sd.Common.{
  ℕ, ◌+◌, Option, none, some, List, [], ◌∷◌, map, Text, Text-discrete, is_empty, get_or,
  if◌then◌else◌,
}
use aws_durable_execution_sd.Common.Map
use aws_durable_execution_sd.Wire.{
  execution, started, start, OperationUpdate, Operation, ExecutionDetails,
}
use aws_durable_execution_sd.Server.Storage.Events.{Event, process_update}
use aws_durable_execution_sd.Server.Storage.{
  Store, OperationEvents, CheckpointOperation, Outcome, returns, throws, operation_not_found,
  invocation_not_found, no_history_event, Poll, no_poll, waiting, new_array, next_event,
  set_operation,
}

abbrev found_all : Option Operation → Option (List Operation) → Option (List Operation)
found_all (some op) (some ops) = some (op ∷ ops)
found_all _ _ = none

abbrev pub operation_of : Option OperationEvents → Option Operation
operation_of none = none
operation_of (some d) = some d.operation

look_up_all : List (Text × OperationEvents) → List Text → Option (List Operation)
look_up_all ops [] = some []
look_up_all ops (id ∷ ids) =
    found_all (operation_of (Map.get Text-discrete ops id)) (look_up_all ops ids)

drain_dirty : Option (List Operation) → Store → Outcome (List Operation) × Store
drain_dirty none s = (throws operation_not_found, s)
drain_dirty (some ops) s = (returns ops, record s { dirty_operation_ids = [] })

unfoldable pub get_dirty_operations : Store → Outcome (List Operation) × Store
unfolding look_up_all drain_dirty
get_dirty_operations s = drain_dirty (look_up_all s.operation_data_map s.dirty_operation_ids) s

abbrev pub InvocationState : Type 0
InvocationState = List OperationEvents × List Text

unfoldable pub start_invocation : ℕ → Text → Store → InvocationState × Store
start_invocation now invocation_id s = (
  (map (λ e. e.1) s.operation_data_map, s.dirty_operation_ids),
  record s {
    invocations_map = Map.set Text-discrete s.invocations_map invocation_id now;
    dirty_operation_ids = [];
  },
)

complete_started : Text → Option ℕ → Store → Outcome ℕ × Store
complete_started invocation_id none s = (throws invocation_not_found, s)
complete_started invocation_id (some since) s = (
  returns since,
  record s { invocations_map = Map.delete Text-discrete s.invocations_map invocation_id },
)

-- The start of the invocation; its end is the time of the call.
unfoldable pub complete_invocation : Text → Store → Outcome ℕ × Store
unfolding complete_started
complete_invocation invocation_id s =
    complete_started invocation_id (Map.get Text-discrete s.invocations_map invocation_id) s

-- `getPendingCheckpointUpdates` when it is called, up to its `await`, and when it goes on after it.
unfoldable pub take_pending_updates : Store → List CheckpointOperation × Store
take_pending_updates s = (s.pending_updates, record s { pending_updates = []; poll = no_poll })

unfoldable pub get_pending_checkpoint_updates : Store → Option (List CheckpointOperation) × Store
get_pending_checkpoint_updates s =
    if is_empty s.pending_updates
    then (none, record s { poll = waiting })
    else (some s.pending_updates, record s { pending_updates = []; poll = no_poll })

-- The manager's first operation, with the id that the platform gives.
abbrev initial_operation : ℕ → Text → Text → Operation
initial_operation now id payload = record {
  id = some id;
  parent_id = none;
  name = none;
  type = some execution;
  sub_type = none;
  start_timestamp = some now;
  end_timestamp = none;
  status = some started;
  execution_details = some (record { input_payload = some payload });
  context_details = none;
  step_details = none;
  wait_details = none;
  callback_details = none;
  chained_invoke_details = none;
}

abbrev initial_update : Text → Text → OperationUpdate
initial_update id payload = record {
  id = some id;
  parent_id = none;
  name = none;
  type = some execution;
  sub_type = none;
  action = some start;
  payload = some payload;
  error = none;
  context_options = none;
  step_options = none;
  wait_options = none;
  callback_options = none;
  chained_invoke_options = none;
}

initialize_with : Text → Operation → Option Event → Store → Outcome OperationEvents × Store
unfolding new_array
initialize_with id op none s = (throws no_history_event, s)
initialize_with id op (some e) s =
    let (a, s') = new_array (e ∷ []) (next_event s) in
    let first : OperationEvents = record { operation = op; events = a } in
    (returns first, record (set_operation id first s') { execution_operation_id = some id })

unfoldable pub initialize : ℕ → Text → Option Text → Store → Outcome OperationEvents × Store
unfolding initialize_with process_update
initialize now id payload s =
    let input = get_or payload (b'{' ∷ b'}' ∷ []) in
    let op = initial_operation now id input in
    initialize_with id op (process_update now none (initial_update id input) op s.event_id) s
