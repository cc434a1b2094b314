-- ===== src/Server/Storage.antt =====
-- checkpoint-server/storage: the store that the server keeps for one execution, of
-- checkpoint-manager.ts, callback-manager.ts and event-processor.ts. A method that may throw gives
-- its outcome beside the store, since what was written before stays written. An array of events is
-- an index into `event_arrays`, since `push` reaches every record that shares the array.
pub mod Events
pub mod Session
pub mod Callbacks
pub mod Register
pub mod Update
pub mod State
pub mod Consistent
use aws_durable_execution_sd.Common.{
  ℕ, zero, suc, ◌+◌, ◌*◌, ◌≡◌, Bool, true, false, Option, none, some, List, [], ◌∷◌, ◌++◌, map,
  Text, Text-discrete, contains, length, get_elem?, get_or, present, is_empty, not, if◌then◌else◌,
}
use aws_durable_execution_sd.Common.Map
use aws_durable_execution_sd.Wire.{
  OperationStatus, OperationType, step, started, execution, OperationUpdate, Operation,
  ExecutionDetails, StepDetails, has_type, start,
}
use aws_durable_execution_sd.Server.Storage.Events.{Event, process_update}

pub data Failure : Type 0 where
  missing_operation_id missing_update_id missing_callback_id missing_status : Failure
  operation_not_found invocation_not_found callback_without_heartbeat undecodable_callback_id :
      Failure
  no_history_event invalid_status_update result_and_error invalid_checkpoint_token : Failure

-- `OperationEvents`, its array of events by reference.
pub record OperationEvents : Type 0 where
  pub operation : Operation
  pub events : ℕ

pub record CheckpointOperation : Type 0 where
  pub operation : Operation
  pub events : ℕ
  pub update : Option OperationUpdate

-- The promise of `getPendingCheckpointUpdates`: `resolvePendingUpdatePromise` is unset, set, or set
-- and called.
pub data Poll : Type 0 where
  no_poll waiting woken : Poll

-- The fields of a `CheckpointManager`, of its `CallbackManager` and of its `EventProcessor`. A timer
-- is the time at which it is due.
pub record Store : Type 0 where
  pub operation_data_map : List (Text × OperationEvents)
  pub event_arrays : List (List Event)
  pub pending_updates : List CheckpointOperation
  pub poll : Poll
  pub invocations_map : List (Text × ℕ)
  pub dirty_operation_ids : List Text
  pub is_execution_completed : Bool
  pub execution_operation_id : Option Text
  pub event_id : ℕ
  pub execution_id : Text
  pub callback_id_map : List (Text × Text)
  pub heartbeat_callback_timers : List (Text × ℕ)
  pub callback_timers : List (Text × ℕ)

pub data Outcome {ℓ} (A : Type ℓ) : Type ℓ where
  returns : A → Outcome A
  throws : Failure → Outcome A

abbrev pub new_store : Text → Store
new_store execution_id = record {
  operation_data_map = [];
  event_arrays = [];
  pending_updates = [];
  poll = no_poll;
  invocations_map = [];
  dirty_operation_ids = [];
  is_execution_completed = false;
  execution_operation_id = none;
  event_id = 1;
  execution_id = execution_id;
  callback_id_map = [];
  heartbeat_callback_timers = [];
  callback_timers = [];
}

abbrev pub get_operation_data : Store → Text → Option OperationEvents
get_operation_data s id = Map.get Text-discrete s.operation_data_map id

abbrev pub events_of : Store → ℕ → List Event
events_of s a = get_or (get_elem? s.event_arrays a) []

-- `[...events, event]`: a new array, with its reference.
unfoldable pub new_array : List Event → Store → ℕ × Store
new_array es s = (length s.event_arrays, record s { event_arrays = s.event_arrays ++ es ∷ [] })

push_at : List (List Event) → ℕ → Event → List (List Event)
push_at [] a e = []
push_at (es ∷ rest) zero e = (es ++ e ∷ []) ∷ rest
push_at (es ∷ rest) (suc a) e = es ∷ push_at rest a e

-- `events.push(event)`.
unfoldable pub push : ℕ → Event → Store → Store
unfolding push_at
push a e s = record s { event_arrays = push_at s.event_arrays a e }

-- `eventId++`
abbrev pub next_event : Store → Store
next_event s = record s { event_id = s.event_id + 1 }

-- `Set.add`.
unfoldable pub insert : List Text → Text → List Text
insert ids id = if contains ids id then ids else ids ++ id ∷ []

abbrev pub wake : Poll → Poll
wake no_poll = no_poll
wake waiting = woken
wake woken = woken

abbrev pub set_operation : Text → OperationEvents → Store → Store
set_operation id data_of s = record s {
  operation_data_map = Map.set Text-discrete s.operation_data_map id data_of;
}

abbrev pub put_operation_update : Text → CheckpointOperation → Store → Store
put_operation_update id c s = record s {
  operation_data_map =
      Map.set Text-discrete s.operation_data_map id
        (record { operation = c.operation; events = c.events });
  dirty_operation_ids = insert s.dirty_operation_ids id;
  pending_updates = s.pending_updates ++ c ∷ [];
  poll = wake s.poll;
}

add_under : Option Text → CheckpointOperation → Store → Outcome (Unit {0}) × Store
unfolding insert
add_under none c s = (throws missing_operation_id, s)
add_under (some id) c s = (returns tt, put_operation_update id c s)

unfoldable pub add_operation_update : CheckpointOperation → Store → Outcome (Unit {0}) × Store
unfolding add_under
add_operation_update c s = add_under (present c.operation.id) c s

unfoldable pub flush_update : Store → Store
flush_update s = record s { poll = wake s.poll }

abbrev has_present : Option Text → Store → Bool
has_present none s = false
has_present (some id) s = elim (get_operation_data s id) [ none ↦ false | some d ↦ true ]

unfoldable pub has_operation : Option Text → Store → Bool
has_operation id s = has_present (present id) s

unfoldable pub has_dirty_operations : Store → Bool
has_dirty_operations s = not (is_empty s.dirty_operation_ids)

-- `new Date()` moved by a number of seconds.
abbrev pub seconds_after : ℕ → ℕ → ℕ
seconds_after now seconds = now + seconds * 1000

abbrev pub no_step_details : StepDetails
no_step_details = record {
  attempt = none;
  next_attempt_timestamp = none;
  result = none;
  error = none;
}

abbrev pub attempt_of : Operation → ℕ
attempt_of op = get_or (get_or op.step_details no_step_details).attempt 0

unfoldable pub mark_operation_completed : ℕ → Operation → OperationStatus → Operation
mark_operation_completed now op status =
    let ended = record op { status = some status; end_timestamp = some now } in
    if has_type step op.type
    then record ended {
      step_details =
          some (record (get_or op.step_details no_step_details) {
            attempt = some (attempt_of op + 1);
          });
    }
    else ended
