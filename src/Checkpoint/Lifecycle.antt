-- ===== src/Checkpoint/Lifecycle.antt =====
-- checkpoint-manager.ts: the life cycle of operations, and the promises that wait for a status change.
use aws_durable_execution_sd.Common.{
  ℕ, ◌+◌, Bool, true, false, Option, none, some, Text, Text-discrete, if◌then◌else◌,
}
use aws_durable_execution_sd.Common.Map
use aws_durable_execution_sd.Wire.{
  OperationStatus, succeeded, cancelled, failed, stopped, timed_out,
}
use aws_durable_execution_sd.Checkpoint.Terminate.{cleanup_operation, check_and_terminate}
use aws_durable_execution_sd.Checkpoint.Queue.{Promise, settled, waiting}
use aws_durable_execution_sd.Checkpoint.{
  OperationLifecycleState, retry_waiting, idle_not_awaited, idle_awaited, completed,
  OperationMetadata, OperationInfo, CheckpointManager,
}
use aws_durable_execution_sd.Checkpoint.Timers.{
  Remaining, find_info, put_info, start_timer_with_polling, stored_status,
}

-- A thrown `Error`, or what the call returns.
pub data Fault : Type 0 where
  metadata_required not_found wrong_state : Fault

pub data Outcome (A : Type 0) : Type 0 where
  throws : Fault → Outcome A
  returns : A → Outcome A

abbrev pub is_terminal_status : Option OperationStatus → Bool
is_terminal_status (some succeeded) = true
is_terminal_status (some cancelled) = true
is_terminal_status (some failed) = true
is_terminal_status (some stopped) = true
is_terminal_status (some timed_out) = true
is_terminal_status _ = false

abbrev pub is_completed : OperationLifecycleState → Bool
is_completed completed = true
is_completed _ = false

abbrev pub is_idle_not_awaited : OperationLifecycleState → Bool
is_idle_not_awaited idle_not_awaited = true
is_idle_not_awaited _ = false

abbrev pub is_idle_awaited : OperationLifecycleState → Bool
is_idle_awaited idle_awaited = true
is_idle_awaited _ = false

abbrev pub is_retrying : OperationLifecycleState → Bool
is_retrying retry_waiting = true
is_retrying _ = false

unfoldable pub get_operation_state : Text → CheckpointManager → Option OperationLifecycleState
get_operation_state step_id m = elim (find_info m step_id) [ none ↦ none | some op ↦ some op.state ]

module _ (hash : Text → Text) where
  abbrev pub check_unless_not_awaited :
      OperationLifecycleState → CheckpointManager → CheckpointManager
  check_unless_not_awaited s m = if is_idle_not_awaited s then m else check_and_terminate hash m

  abbrev pub cleanup_if_completed :
      OperationLifecycleState → Text → CheckpointManager → CheckpointManager
  cleanup_if_completed s step_id m = if is_completed s then cleanup_operation step_id m else m

  abbrev pub new_info :
      Text → OperationLifecycleState → OperationMetadata → Option ℕ → OperationInfo
  new_info step_id state metadata end_timestamp = record {
    step_id = step_id;
    state = state;
    metadata = metadata;
    end_timestamp = end_timestamp;
    timer = none;
    resolver = none;
    poll_count = none;
  }

  abbrev pub marked : OperationInfo → OperationLifecycleState → Option ℕ → OperationInfo
  marked op state end_timestamp = record op {
    state = state;
    end_timestamp = elim end_timestamp [ none ↦ op.end_timestamp | some t ↦ some t ];
  }

  -- `markOperationState`, with the record that the map holds.
  abbrev pub mark_found :
      Text
      → OperationLifecycleState
      → Option OperationMetadata
      → Option ℕ
      → CheckpointManager
      → Option OperationInfo
      → Outcome CheckpointManager
  mark_found step_id state none end_timestamp m none = throws metadata_required
  mark_found step_id state (some given) end_timestamp m none = returns (
      check_unless_not_awaited state (
        cleanup_if_completed state step_id
          (record (put_info step_id (new_info step_id state given end_timestamp) m) {
            hashed_id_index = Map.set Text-discrete m.hashed_id_index (hash step_id) step_id;
          })))
  mark_found step_id state metadata end_timestamp m (some op) = returns (
      check_unless_not_awaited state
        (cleanup_if_completed state step_id (put_info step_id (marked op state end_timestamp) m)))

  -- `metadata` and `end_timestamp` are the options of the call.
  unfoldable pub mark_operation_state :
      Text
      → OperationLifecycleState
      → Option OperationMetadata
      → Option ℕ
      → CheckpointManager
      → Outcome CheckpointManager
  mark_operation_state step_id state metadata end_timestamp m =
      mark_found step_id state metadata end_timestamp m (find_info m step_id)

  abbrev pub await_change :
      Remaining → ℕ → Text → OperationInfo → CheckpointManager → Promise × CheckpointManager
  await_change remaining now step_id op m =
      if is_terminal_status (stored_status hash m step_id)
      then (settled, m)
      else let polled = start_timer_with_polling remaining now step_id op.end_timestamp m in
        (
          waiting m.next_ticket,
          elim (find_info polled step_id) [
            | none ↦ record polled { next_ticket = m.next_ticket + 1 }
            | some op' ↦
                record (put_info step_id (record op' { resolver = some m.next_ticket }) polled) {
                  next_ticket = m.next_ticket + 1;
                }
          ],
        )

  abbrev pub wait_found :
      (OperationLifecycleState → Bool)
      → Remaining
      → ℕ
      → Text
      → CheckpointManager
      → Option OperationInfo
      → Outcome (Promise × CheckpointManager)
  wait_found expected remaining now step_id m none = throws not_found
  wait_found expected remaining now step_id m (some op) =
      if expected op.state
      then returns (await_change remaining now step_id op m)
      else throws wrong_state

  abbrev pub wait_in :
      (OperationLifecycleState → Bool)
      → Remaining
      → ℕ
      → Text
      → CheckpointManager
      → Outcome (Promise × CheckpointManager)
  wait_in expected remaining now step_id m =
      wait_found expected remaining now step_id m (find_info m step_id)

  unfoldable pub wait_for_retry_timer :
      Remaining → ℕ → Text → CheckpointManager → Outcome (Promise × CheckpointManager)
  unfolding start_timer_with_polling
  wait_for_retry_timer = wait_in is_retrying

  unfoldable pub wait_for_status_change :
      Remaining → ℕ → Text → CheckpointManager → Outcome (Promise × CheckpointManager)
  unfolding start_timer_with_polling
  wait_for_status_change = wait_in is_idle_awaited

  abbrev pub await_found : Text → CheckpointManager → Option OperationInfo → CheckpointManager
  await_found step_id m none = m
  await_found step_id m (some op) =
      if is_idle_not_awaited op.state
      then check_and_terminate hash (put_info step_id (record op { state = idle_awaited }) m)
      else m

  unfoldable pub mark_operation_awaited : Text → CheckpointManager → CheckpointManager
  mark_operation_awaited step_id m = await_found step_id m (find_info m step_id)
