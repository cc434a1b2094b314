-- ===== src/Server/Storage/Register.antt =====
-- checkpoint-server/storage/checkpoint-manager.ts: `registerUpdate`, `completeOperation` and
-- `registerUpdates`.
pub mod Applied
pub mod Created
pub mod Kept
use aws_durable_execution_sd.Common.{
  ℕ, ◌+◌, Bool, true, false, not, ◌&&◌, ◌||◌, Option, none, some, List, [], ◌∷◌, ◌++◌, Text,
  Text-discrete, present, get_or, decide, if◌then◌else◌,
}
use aws_durable_execution_sd.Wire.{
  OperationType, callback, context, execution, step, wait, OperationAction, fail, retry, succeed,
  OperationStatus, failed, pending, started, succeeded, ContextDetails, ContextOptions, StepOptions,
  WaitDetails, CallbackDetails, Operation, OperationUpdate, has_type,
}
use aws_durable_execution_sd.Server.Storage.Events.{
  Event, process_update, wait_seconds_of, timeout_of, heartbeat_of,
}
use aws_durable_execution_sd.Server.Storage.Callbacks.{create_callback}
use aws_durable_execution_sd.Server.Storage.{
  Store, OperationEvents, CheckpointOperation, Outcome, returns, throws, Failure,
  missing_operation_id, missing_update_id, operation_not_found, no_history_event,
  invalid_checkpoint_token, get_operation_data, events_of, new_array, next_event, set_operation,
  add_operation_update, mark_operation_completed, seconds_after, attempt_of, no_step_details,
}

abbrev pub delay_of : Option StepOptions → ℕ
delay_of none = 0
delay_of (some o) = get_or o.next_attempt_delay_seconds 0

unfoldable pub process_retry_operation : ℕ → Operation → ℕ → ℕ → Operation
process_retry_operation now op attempt delay = record op {
  status = some pending;
  step_details = some (record (get_or op.step_details no_step_details) {
    attempt = some attempt;
    next_attempt_timestamp = some (seconds_after now delay);
  });
}

abbrev pub replay_children_of : Option ContextOptions → Option Bool
replay_children_of none = none
replay_children_of (some o) = o.replay_children

abbrev kept_replay_children : Option ContextDetails → Option Bool
kept_replay_children none = none
kept_replay_children (some d) = d.replay_children

-- `a ?? b`, where `b` may be absent too.
abbrev or_else : {A : Type 0} → Option A → Option A → Option A
or_else none b = b
or_else (some a) b = some a

-- The first `switch` of `completeOperation`, on the action.
complete_by_action : ℕ → Option OperationAction → Operation → Operation
unfolding mark_operation_completed
complete_by_action now (some succeed) op = mark_operation_completed now op succeeded
complete_by_action now (some fail) op = mark_operation_completed now op failed
complete_by_action now _ op = op

retry_by_action : ℕ → Option OperationAction → ℕ → ℕ → Operation → Operation
unfolding process_retry_operation
retry_by_action now (some retry) attempt delay op = process_retry_operation now op attempt delay
retry_by_action now _ attempt delay op = op

-- The second one, on the type of the operation; `attempt` is of the operation before the update.
complete_by_type : ℕ → OperationUpdate → ℕ → Option OperationType → Operation → Operation
unfolding retry_by_action
complete_by_type now u attempt (some step) op =
    retry_by_action now u.action (attempt + 1) (delay_of u.step_options) (record op {
      step_details =
          some (record (get_or op.step_details no_step_details) {
            result = u.payload;
            error = u.error;
          });
    })
complete_by_type now u attempt (some context) op = record op {
  context_details = some (record {
    result = u.payload;
    error = u.error;
    replay_children =
        or_else (replay_children_of u.context_options) (kept_replay_children op.context_details);
  });
}
complete_by_type now u attempt _ op = op

unfoldable pub completed_operation : ℕ → OperationUpdate → Operation → Operation
unfolding complete_by_action complete_by_type
completed_operation now u op =
    complete_by_type now u (attempt_of op) op.type (complete_by_action now u.action op)

complete_with :
    ℕ → OperationUpdate → OperationEvents → Option Event → Store → Outcome OperationEvents × Store
unfolding new_array completed_operation
complete_with now u d none s = (throws no_history_event, s)
complete_with now u d (some e) s =
    let (a, s') = new_array (events_of s d.events ++ e ∷ []) (next_event s) in
    (
      returns (record { operation = completed_operation now u d.operation; events = a }),
      record s' {
        is_execution_completed = s'.is_execution_completed || has_type execution d.operation.type;
      },
    )

complete_found :
    ℕ → OperationUpdate → Option OperationEvents → Store → Outcome OperationEvents × Store
unfolding complete_with process_update
complete_found now u none s = (throws operation_not_found, s)
complete_found now u (some d) s =
    complete_with now u d (process_update now none u d.operation s.event_id) s

complete_present : ℕ → OperationUpdate → Option Text → Store → Outcome OperationEvents × Store
unfolding complete_found
complete_present now u none s = (throws missing_operation_id, s)
complete_present now u (some id) s = complete_found now u (get_operation_data s id) s

unfoldable pub complete_operation : ℕ → OperationUpdate → Store → Outcome OperationEvents × Store
unfolding complete_present
complete_operation now u s = complete_present now u (present u.id) s

abbrev after_add : OperationEvents → Outcome (Unit {0}) × Store → Outcome OperationEvents × Store
after_add d (returns _, s) = (returns d, s)
after_add d (throws f, s) = (throws f, s)

-- `this.addOperationUpdate({ ...result, update }); return result;`
pub publish : OperationUpdate → Outcome OperationEvents × Store → Outcome OperationEvents × Store
unfolding add_operation_update
publish u (throws f, s) = (throws f, s)
publish u (returns d, s) = after_add d (
    add_operation_update (record { operation = d.operation; events = d.events; update = some u }) s)

abbrev pub scheduled_end : Operation → Option ℕ
scheduled_end op = elim op.wait_details [ none ↦ none | some d ↦ d.scheduled_end_timestamp ]

register_by_end :
    ℕ → OperationUpdate → OperationEvents → Store → Option ℕ → Outcome OperationEvents × Store
unfolding publish complete_operation
register_by_end now u d s (some end) = publish u (returns d, s)
register_by_end now u d s none = publish u (complete_operation now u s)

pub register_existing :
    ℕ → OperationUpdate → OperationEvents → Store → Outcome OperationEvents × Store
unfolding register_by_end
register_existing now u d s = register_by_end now u d s (scheduled_end d.operation)

-- The object literal `operation` of `registerUpdate`.
abbrev pub started_operation : ℕ → OperationUpdate → Operation
started_operation now u = record {
  id = u.id;
  parent_id = u.parent_id;
  name = u.name;
  type = u.type;
  sub_type = u.sub_type;
  start_timestamp = some now;
  end_timestamp = none;
  status = some started;
  execution_details = none;
  context_details = none;
  step_details = none;
  wait_details = none;
  callback_details = none;
  chained_invoke_details = none;
}

abbrev put_first :
    OperationEvents
    → Outcome (List OperationEvents) × Store
    → Outcome (List OperationEvents) × Store
put_first d (throws f, s) = (throws f, s)
put_first d (returns ds, s) = (returns (d ∷ ds), s)

module _ (encode : Text → Text → Text → Text) (now : ℕ) (token : Text) where
  -- The `switch` over the type of the update that creates the operation `id`.
  unfoldable pub create_by_type :
      OperationUpdate → Text → Option OperationType → Operation → Store → Operation × Store
  unfolding retry_by_action create_callback
  create_by_type u id (some wait) op s = (
    record op {
      wait_details = some (record {
        scheduled_end_timestamp =
            some (seconds_after now (get_or (wait_seconds_of u.wait_options) 0));
      });
    },
    s,
  )
  create_by_type u id (some step) op s =
      (retry_by_action now u.action 1 (delay_of u.step_options) op, s)
  create_by_type u id (some callback) op s =
      let (callback_id, s') =
        create_callback encode now token id (timeout_of u.callback_options)
          (heartbeat_of u.callback_options) s in
      (
        record op {
          callback_details =
              some (record { callback_id = some callback_id; result = none; error = none });
        },
        s',
      )
  create_by_type u id (some context) op s = (
    record op {
      context_details = some (record {
        replay_children = replay_children_of u.context_options;
        result = none;
        error = none;
      });
    },
    s,
  )
  create_by_type u id _ op s = (op, s)

  -- `result.events = [event]`, in the record that the map holds.
  set_first_event : Text → Operation → Option Event → Store → Outcome OperationEvents × Store
  unfolding new_array
  set_first_event id op none s = (throws no_history_event, s)
  set_first_event id op (some e) s =
      let (a, s') = new_array (e ∷ []) (next_event s) in
      let d : OperationEvents = record { operation = op; events = a } in
      (returns d, set_operation id d s')

  first_result :
      OperationUpdate
      → Text
      → Option OperationAction
      → Operation
      → Store
      → Outcome OperationEvents × Store
  unfolding complete_operation set_first_event process_update
  first_result u id (some succeed) op s = complete_operation now u s
  first_result u id (some fail) op s = complete_operation now u s
  first_result u id _ op s = set_first_event id op (process_update now none u op s.event_id) s

  pub register_new : OperationUpdate → Text → Store → Outcome OperationEvents × Store
  unfolding create_by_type new_array first_result publish
  register_new u id s =
      let (op, s1) = create_by_type u id u.type (started_operation now u) s in
      let (a, s2) = new_array [] s1 in
      publish u (
        first_result u id u.action op (set_operation id (record { operation = op; events = a }) s2))

  register_found :
      OperationUpdate → Text → Option OperationEvents → Store → Outcome OperationEvents × Store
  unfolding register_existing register_new
  register_found u id (some d) s = register_existing now u d s
  register_found u id none s = register_new u id s

  register_present : OperationUpdate → Option Text → Store → Outcome OperationEvents × Store
  unfolding register_found
  register_present u none s = (throws missing_update_id, s)
  register_present u (some id) s = register_found u id (get_operation_data s id) s

  abbrev same_id : Option Text → Text → Bool
  same_id none id = false
  same_id (some j) id = decide (Text-discrete j id)

  -- An EXECUTION update is one to the execution's own operation, whatever its id.
  abbrev pub redirect : Option Text → OperationUpdate → OperationUpdate
  redirect none u = u
  redirect (some id) u =
      if has_type execution u.type && not (same_id u.id id) then record u { id = some id } else u

  unfoldable pub register_update : OperationUpdate → Store → Outcome OperationEvents × Store
  unfolding register_present
  register_update u s =
      let v = redirect s.execution_operation_id u in register_present v (present v.id) s

  register_next :
      Outcome OperationEvents × Store
      → (Store → Outcome (List OperationEvents) × Store)
      → Outcome (List OperationEvents) × Store
  register_next (throws f, s) more = (throws f, s)
  register_next (returns d, s) more = put_first d (more s)

  unfoldable pub register_each :
      List OperationUpdate → Store → Outcome (List OperationEvents) × Store
  unfolding register_update register_next
  register_each [] s = (returns [], s)
  register_each (u ∷ us) s = register_next (register_update u s) (register_each us)

  unfoldable pub register_updates :
      List OperationUpdate → Store → Outcome (List OperationEvents) × Store
  unfolding register_each
  register_updates us s =
      if s.is_execution_completed then (throws invalid_checkpoint_token, s) else register_each us s
