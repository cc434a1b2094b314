-- ===== src/Checkpoint/Steps.antt =====
-- checkpoint-manager.ts: the calls, timers and answers that change a `CheckpointManager`, in any order.
-- Between two steps JavaScript runs no code of the manager, since each runs to its end or its `await`.
use aws_durable_execution_sd.Common.{ℕ, ◌≡◌, ◌≢◌, true, Option, some, Text}
use aws_durable_execution_sd.Wire.{OperationStatus, OperationUpdate}
use aws_durable_execution_sd.Termination.{TerminationReason}
use aws_durable_execution_sd.Checkpoint.{
  OperationLifecycleState, OperationMetadata, CheckpointManager,
}
use aws_durable_execution_sd.Checkpoint.Classify.{Thrown}
use aws_durable_execution_sd.Checkpoint.Terminate.{on_cooldown}
use aws_durable_execution_sd.Checkpoint.Queue.{
  Promise, CheckpointResponse, checkpoint, force_checkpoint, wait_for_queue_completion, clear_queue,
  set_terminating, mark_ancestor_finished, on_immediate, complete_success, complete_failure,
}
use aws_durable_execution_sd.Checkpoint.Lifecycle.{
  returns, mark_operation_state, mark_operation_awaited, wait_for_retry_timer,
  wait_for_status_change,
}
use aws_durable_execution_sd.Checkpoint.Timers.{Remaining, force_refresh, after_refresh, dispose}

module _ (hash : Text → Text) (wire_size : Text → OperationUpdate → ℕ) where
  pub data Step : CheckpointManager → CheckpointManager → Type 0 where
    enqueues :
        (step_id : Text) (u : OperationUpdate) (m : CheckpointManager)
        → Step m (checkpoint wire_size step_id u m).1
    forces : (m : CheckpointManager) → Step m (force_checkpoint m).1
    waits_for_queue : (m : CheckpointManager) → Step m (wait_for_queue_completion m).1
    clears : (m : CheckpointManager) → Step m (clear_queue m)
    terminates : (m : CheckpointManager) → Step m (set_terminating m)
    finishes_ancestor :
        (step_id : Text) (m : CheckpointManager) → Step m (mark_ancestor_finished step_id m)
    -- A pending `setImmediate` runs.
    runs : (m : CheckpointManager) → m.scheduled ≢ 0 → Step m (on_immediate hash m)
    -- The request on the way is answered, or fails.
    answered :
        (r : CheckpointResponse) (m : CheckpointManager)
        → m.is_processing ≡ true
        → Step m (complete_success hash r m)
    fails :
        (e : Thrown) (m : CheckpointManager)
        → m.is_processing ≡ true
        → Step m (complete_failure hash e m)
    marks :
        (step_id : Text) (s : OperationLifecycleState) (d : Option OperationMetadata)
        (end_timestamp : Option ℕ) {m n : CheckpointManager}
        → mark_operation_state hash step_id s d end_timestamp m ≡ returns n
        → Step m n
    awaits :
        (step_id : Text) (m : CheckpointManager) → Step m (mark_operation_awaited hash step_id m)
    waits_for_retry :
        (r : Remaining) (now : ℕ) (step_id : Text) (p : Promise) {m n : CheckpointManager}
        → wait_for_retry_timer hash r now step_id m ≡ returns (p, n)
        → Step m n
    waits_for_change :
        (r : Remaining) (now : ℕ) (step_id : Text) (p : Promise) {m n : CheckpointManager}
        → wait_for_status_change hash r now step_id m ≡ returns (p, n)
        → Step m n
    -- The cooldown timer fires.
    cools_down :
        (reason : TerminationReason) (m : CheckpointManager)
        → m.termination_timer ≡ some reason
        → Step m (on_cooldown hash reason m)
    -- A poll timer fires, and its refresh comes back.
    polls :
        (r : Remaining) (step_id : Text) (m : CheckpointManager)
        → Step m (force_refresh hash r step_id m).1
    refreshes :
        (step_id : Text) (old : Option OperationStatus) (m : CheckpointManager)
        → Step m (after_refresh hash step_id old m)
    disposes : (m : CheckpointManager) → Step m (dispose m)

  pub data Steps (m : CheckpointManager) : CheckpointManager → Type 0 where
    here : Steps m m
    next : {n o : CheckpointManager} → Steps m n → Step n o → Steps m o
