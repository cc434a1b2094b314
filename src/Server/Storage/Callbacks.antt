-- ===== src/Server/Storage/Callbacks.antt =====
-- checkpoint-server/storage/callback-manager.ts, and the two methods of checkpoint-manager.ts that
-- call it. `encode` and `decode` are the base64 text of a JSON object by which utils/callback-id.ts
-- makes an id and reads the operation's id out of it; `now` is the time, `token` a random one.
pub mod Kept
use aws_durable_execution_sd.Common.{
  ℕ, zero, suc, Option, none, some, List, [], ◌∷◌, ◌++◌, Text, Text-discrete, codes, present,
}
use aws_durable_execution_sd.Common.Map
use aws_durable_execution_sd.Wire.{OperationStatus, CallbackDetails, ErrorObject, Operation}
use aws_durable_execution_sd.Server.Storage.Events.{
  Event, EventDetails, awaits_callback, ended, EventKind, callback_succeeded, callback_failed,
  callback_timed_out, payload_of, create_history_event,
}
use aws_durable_execution_sd.Server.Storage.{
  Store, OperationEvents, CheckpointOperation, Outcome, returns, throws, Failure,
  missing_callback_id, undecodable_callback_id, operation_not_found, missing_operation_id,
  callback_without_heartbeat, get_operation_data, events_of, new_array, next_event,
  add_operation_update, mark_operation_completed, seconds_after,
}

pub data CompleteCallbackStatus : Type 0 where
  succeeded failed timed_out : CompleteCallbackStatus

abbrev pub operation_status : CompleteCallbackStatus → OperationStatus
operation_status succeeded = OperationStatus.succeeded
operation_status failed = OperationStatus.failed
operation_status timed_out = OperationStatus.timed_out

-- `callbackHistoryDetails`, with the details of the entry.
abbrev pub callback_history_details : CompleteCallbackStatus → CallbackDetails → EventKind
callback_history_details succeeded d = (callback_succeeded, ended (some (payload_of d.result)) none)
callback_history_details failed d = (callback_failed, ended none (some (payload_of d.error)))
callback_history_details timed_out d = (callback_timed_out, ended none (some (payload_of d.error)))

-- `{ CallbackId: …, Error: { ErrorMessage: … } }`
abbrev pub timed_out_details : Text → Text → CallbackDetails
timed_out_details callback_id message = record {
  callback_id = some callback_id;
  result = none;
  error = some (record {
    error_message = some message;
    error_type = none;
    error_data = none;
    stack_trace = none;
  });
}

abbrev set_timer : ℕ → Text → Option ℕ → List (Text × ℕ) → List (Text × ℕ)
set_timer now callback_id none timers = timers
set_timer now callback_id (some seconds) timers =
    Map.set Text-discrete timers callback_id (seconds_after now seconds)

unfoldable pub create_callback :
    (Text → Text → Text → Text) → ℕ → Text → Text → Option ℕ → Option ℕ → Store → Text × Store
create_callback encode now token operation_id timeout heartbeat s =
    let callback_id = encode s.execution_id operation_id token in
    (
      callback_id,
      record s {
        callback_id_map = Map.set Text-discrete s.callback_id_map callback_id operation_id;
        callback_timers = set_timer now callback_id timeout s.callback_timers;
        heartbeat_callback_timers = set_timer now callback_id heartbeat s.heartbeat_callback_timers;
      },
    )

abbrev pub clear_callback_timers : Text → Store → Store
clear_callback_timers callback_id s = record s {
  heartbeat_callback_timers = Map.delete Text-discrete s.heartbeat_callback_timers callback_id;
  callback_timers = Map.delete Text-discrete s.callback_timers callback_id;
}

abbrev after_add : OperationEvents → Outcome (Unit {0}) × Store → Outcome OperationEvents × Store
after_add d (returns _, s) = (returns d, s)
after_add d (throws f, s) = (throws f, s)

module _ (decode : Text → Option Text) (now : ℕ) where
  complete_found :
      Text
      → CallbackDetails
      → CompleteCallbackStatus
      → Option OperationEvents
      → Store
      → Outcome OperationEvents × Store
  unfolding mark_operation_completed create_history_event new_array add_operation_update
  complete_found callback_id details status none s = (throws operation_not_found, s)
  complete_found callback_id details status (some d) s =
      let op : Operation =
        record (mark_operation_completed now d.operation (operation_status status)) {
          callback_details = some details;
        } in
      let e = create_history_event now (callback_history_details status details) op s.event_id in
      let (a, s1) = new_array (events_of s d.events ++ e ∷ []) (next_event s) in
      let s2 =
        clear_callback_timers callback_id (record s1 {
          callback_id_map = Map.delete Text-discrete s1.callback_id_map callback_id;
        }) in
      after_add (record { operation = op; events = a })
        (add_operation_update (record { operation = op; events = a; update = none }) s2)

  complete_decoded :
      Text
      → CallbackDetails
      → CompleteCallbackStatus
      → Option Text
      → Store
      → Outcome OperationEvents × Store
  unfolding complete_found
  complete_decoded callback_id details status none s = (throws undecodable_callback_id, s)
  complete_decoded callback_id details status (some id) s =
      complete_found callback_id details status (get_operation_data s id) s

  complete_present :
      Option Text
      → CallbackDetails
      → CompleteCallbackStatus
      → Store
      → Outcome OperationEvents × Store
  unfolding complete_decoded
  complete_present none details status s = (throws missing_callback_id, s)
  complete_present (some callback_id) details status s =
      complete_decoded callback_id details status (decode callback_id) s

  -- `CallbackManager.completeCallback`.
  unfoldable pub complete_callback :
      CallbackDetails → CompleteCallbackStatus → Store → Outcome OperationEvents × Store
  unfolding complete_present
  complete_callback details status s =
      complete_present (present details.callback_id) details status s

  with_operation_id : Outcome OperationEvents × Store → Outcome OperationEvents × Store
  with_operation_id (throws f, s) = (throws f, s)
  with_operation_id (returns d, s) = elim (present d.operation.id) [
    | none ↦ (throws missing_operation_id, s)
    | some id ↦ (returns d, s)
  ]

  -- `CheckpointManager.completeCallback`.
  unfoldable pub complete_callback_checked :
      CallbackDetails → CompleteCallbackStatus → Store → Outcome OperationEvents × Store
  unfolding complete_callback with_operation_id
  complete_callback_checked details status s =
      with_operation_id (complete_callback details status s)

  -- The two timers of `createCallback`, when they fire.
  unfoldable pub on_timeout : Text → Store → Outcome OperationEvents × Store
  unfolding complete_callback
  on_timeout callback_id s =
      complete_callback (timed_out_details callback_id (codes "Callback timed out")) timed_out s

  unfoldable pub on_heartbeat_timeout : Text → Store → Outcome OperationEvents × Store
  unfolding complete_callback
  on_heartbeat_timeout callback_id s =
      complete_callback (timed_out_details callback_id (codes "Callback timed out on heartbeat"))
        timed_out s

  abbrev started_heartbeat : EventDetails → Option ℕ
  started_heartbeat (awaits_callback id timeout (some (suc n)) payload) = some (suc n)
  started_heartbeat _ = none

  abbrev first_heartbeat : List Event → Option ℕ
  first_heartbeat [] = none
  first_heartbeat (e ∷ es) = elim (started_heartbeat e.details) [
    | none ↦ first_heartbeat es
    | some seconds ↦ some seconds
  ]

  restart : Text → Option ℕ → Store → Outcome (Unit {0}) × Store
  restart callback_id none s = (throws callback_without_heartbeat, s)
  restart callback_id (some seconds) s = (
    returns tt,
    record s {
      heartbeat_callback_timers =
          set_timer now callback_id (some seconds) s.heartbeat_callback_timers;
    },
  )

  heartbeat_found : Text → Option OperationEvents → Store → Outcome (Unit {0}) × Store
  unfolding restart
  heartbeat_found callback_id none s = (throws operation_not_found, s)
  heartbeat_found callback_id (some d) s =
      restart callback_id (first_heartbeat (events_of s d.events)) s

  heartbeat_decoded : Text → Option Text → Store → Outcome (Unit {0}) × Store
  unfolding heartbeat_found
  heartbeat_decoded callback_id none s = (throws undecodable_callback_id, s)
  heartbeat_decoded callback_id (some id) s =
      heartbeat_found callback_id (get_operation_data s id) s

  unfoldable pub heartbeat_callback : Text → Store → Outcome (Unit {0}) × Store
  unfolding heartbeat_decoded
  heartbeat_callback callback_id s = heartbeat_decoded callback_id (decode callback_id) s

unfoldable pub cleanup_callbacks : Store → Store
cleanup_callbacks s = record s {
  heartbeat_callback_timers = [];
  callback_timers = [];
  callback_id_map = [];
}

-- `CheckpointManager.cleanup`.
unfoldable pub cleanup : Store → Store
unfolding cleanup_callbacks
cleanup s = cleanup_callbacks (record s { operation_data_map = []; dirty_operation_ids = [] })
