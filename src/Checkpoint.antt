-- ===== src/Checkpoint.antt =====
-- packages/aws-durable-execution-sdk-js/src/utils/checkpoint/checkpoint-manager.ts: the state of a
-- `CheckpointManager`. A promise that the manager hands out is a ticket, and `resolved` lists the
-- tickets whose promises it has resolved, in order, and
-- `sent` the requests that it has made; a pending `setImmediate` of `processQueue` is
-- counted in `scheduled`; a timer is the value that its callback holds. `in_flight` is the batch
-- that a suspended `processBatch` holds while its request is on the way.
mod Tests
pub mod Ids
pub mod Terminate
pub mod Classify
pub mod Queue
pub mod Timers
pub mod Lifecycle
pub mod Steps
pub mod Invariant
pub mod Polling
use aws_durable_execution_sd.Common.{
  ℕ, ◌+◌, ◌*◌, ◌^◌, ◌-◌, Bool, true, false, Option, none, some, List, [], ◌∷◌, Text,
}
use aws_durable_execution_sd.Wire.{OperationType, Operation, OperationUpdate}
use aws_durable_execution_sd.Termination.{TerminationReason, TerminationManager}

pub data OperationLifecycleState : Type 0 where
  executing retry_waiting idle_not_awaited idle_awaited completed : OperationLifecycleState

pub data OperationSubType : Type 0 where
  step_sub wait_sub callback_sub run_in_child_context map_sub map_iteration parallel parallel_branch
        wait_for_callback wait_for_condition chained_invoke_sub :
      OperationSubType

pub record OperationMetadata : Type 0 where
  pub step_id : Text
  pub name : Option Text
  pub type : OperationType
  pub sub_type : OperationSubType
  pub parent_id : Option Text

-- `timer` is the delay in milliseconds of an armed poll, `resolver` the ticket of the waiting promise.
pub record OperationInfo : Type 0 where
  pub step_id : Text
  pub state : OperationLifecycleState
  pub metadata : OperationMetadata
  pub end_timestamp : Option ℕ
  pub timer : Option ℕ
  pub resolver : Option ℕ
  pub poll_count : Option ℕ

pub record QueuedCheckpoint : Type 0 where
  pub step_id : Text
  pub update : OperationUpdate
  pub size_bytes : ℕ
  pub ticket : ℕ

-- `CheckpointUnrecoverableInvocationError` and `CheckpointUnrecoverableExecutionError`, with the
-- message that their constructors take.
pub data CheckpointError : Type 0 where
  invocation_error execution_error : Text → CheckpointError

-- `CheckpointDurableExecutionRequest`, but for the constant ARN.
pub record CheckpointRequest : Type 0 where
  pub checkpoint_token : Text
  pub updates : List OperationUpdate

pub record CheckpointManager : Type 0 where
  pub queue : List QueuedCheckpoint
  pub is_processing : Bool
  pub in_flight : Option (List QueuedCheckpoint)
  pub scheduled : ℕ
  pub current_task_token : Text
  pub force_checkpoint_promises : List ℕ
  pub queue_completion_resolver : Option ℕ
  pub is_terminating : Bool
  pub disposed : Bool
  pub operations : List (Text × OperationInfo)
  pub hashed_id_index : List (Text × Text)
  pub termination_timer : Option TerminationReason
  pub termination_reason : Option TerminationReason
  pub step_data : List (Text × Operation)
  pub finished_ancestors : List Text
  pub termination_manager : TerminationManager CheckpointError
  pub next_ticket : ℕ
  pub resolved : List ℕ
  pub sent : List CheckpointRequest

-- The constructor, on what it is given: the token, the step data, the ancestors that have finished and
-- the termination manager.
abbrev pub new_checkpoint_manager :
    Text
    → List (Text × Operation)
    → List Text
    → TerminationManager CheckpointError
    → CheckpointManager
new_checkpoint_manager initial_task_token step_data finished_ancestors termination_manager =
    record {
      queue = [];
      is_processing = false;
      in_flight = none;
      scheduled = 0;
      current_task_token = initial_task_token;
      force_checkpoint_promises = [];
      queue_completion_resolver = none;
      is_terminating = false;
      disposed = false;
      operations = [];
      hashed_id_index = [];
      termination_timer = none;
      termination_reason = none;
      step_data = step_data;
      finished_ancestors = finished_ancestors;
      termination_manager = termination_manager;
      next_ticket = 0;
      resolved = [];
      sent = [];
    }

abbrev pub max_payload_size : ℕ
max_payload_size = 750 * 1024

abbrev pub max_items_in_batch : ℕ
max_items_in_batch = 250

-- constants.ts
abbrev pub max_timer_delay_ms : ℕ
max_timer_delay_ms = 2 ^ 31 - 1

abbrev pub min_remaining_time_to_poll_ms : ℕ
min_remaining_time_to_poll_ms = 1000

abbrev pub initial_poll_delay_ms : ℕ
initial_poll_delay_ms = 1000

abbrev pub poll_interval_ceiling_ms : ℕ
poll_interval_ceiling_ms = 10000

abbrev pub extended_poll_interval_ceiling_ms : ℕ
extended_poll_interval_ceiling_ms = 60000

abbrev pub polls_before_extended_interval : ℕ
polls_before_extended_interval = 95
