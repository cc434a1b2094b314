-- ===== src/Checkpoint/Invariant.antt =====
-- checkpoint-manager.ts: what the operations of the queue keep of a `CheckpointManager`.
pub mod Always
pub mod Keyed
pub mod Tracked
use aws_durable_execution_sd.Common.{
  ℕ, suc, ◌+◌, ◌<◌, ◌≡◌, refl, subst, ◌≢◌, ◌⊎◌, inl, inr, Bool, true, false, Option, none, some,
  List, [], ◌∷◌, ◌++◌, Text, is_empty, is_some, Option-cases, Bool-cases, arith,
}
use aws_durable_execution_sd.Common.Map
use aws_durable_execution_sd.Wire.{Operation, OperationUpdate, OperationStatus}
use aws_durable_execution_sd.Checkpoint.Queue.{Promise}
use aws_durable_execution_sd.Termination.{checkpoint_failed, TerminationReason}
use aws_durable_execution_sd.Checkpoint.{
  CheckpointManager, OperationInfo, QueuedCheckpoint, OperationLifecycleState, executing,
  retry_waiting, idle_not_awaited, idle_awaited, completed, OperationMetadata,
}
use aws_durable_execution_sd.Checkpoint.Classify.{Thrown, classify_checkpoint_error, message_of}
use aws_durable_execution_sd.Checkpoint.Terminate.{
  terminate_with, check_and_terminate, cleanup_operation, cleanup_all_operations,
}
use aws_durable_execution_sd.Checkpoint.Terminate.Frame.{
  SameQueue, SameQueue-refl, SameQueue-trans, check_and_terminate-SameQueue, on_cooldown-SameQueue,
  cleanup_operation-SameQueue,
}
use aws_durable_execution_sd.Checkpoint.Queue.{
  CheckpointResponse, checkpoint, force_checkpoint, wait_for_queue_completion, clear_queue,
  set_terminating, mark_ancestor_finished, on_immediate, process_queue, complete_success,
  complete_failure, finish_processing, notify_queue_completion, resolve_batch, accept_response,
  update_step_data, update_one, resolve_waiting_operation,
}
use aws_durable_execution_sd.Checkpoint.Lifecycle.{
  mark_operation_state, mark_operation_awaited, wait_for_retry_timer, wait_for_status_change,
  check_unless_not_awaited, cleanup_if_completed, mark_found, wait_found, wait_in, await_found,
  is_idle_not_awaited, is_retrying, is_idle_awaited, await_change, returns,
}
use aws_durable_execution_sd.Checkpoint.Timers.{
  force_refresh, after_refresh, dispose, start_timer_with_polling, Remaining, find_info, put_info,
}
use aws_durable_execution_sd.Checkpoint.Steps.{
  Step, enqueues, forces, waits_for_queue, clears, terminates, finishes_ancestor, runs, answered,
  fails, marks, awaits, waits_for_retry, waits_for_change, cools_down, polls, refreshes, disposes,
  Steps, here, next,
}

pub returned : {m n : CheckpointManager} → returns m ≡ returns n → m ≡ n
returned e = ground (arith, e)

-- The flag tells whether a request is on the way, and while none is, waiting work has a
-- `setImmediate` pending.
pub record Awake (m : CheckpointManager) : Type 0 where
  pub busy : m.is_processing ≡ is_some m.in_flight
  pub woken :
      m.is_processing ≡ false
      → (is_empty m.queue ≡ false) ⊎ (is_empty m.force_checkpoint_promises ≡ false)
      → 0 < m.scheduled

pub SameQueue-Awake : {m n : CheckpointManager} → SameQueue m n → Awake m → Awake n
SameQueue-Awake {m} {n} s a = record {
  busy = ground (arith, a.busy);
  woken = λ idle work. ground (arith, a.woken);
}

pub checkpoint-Awake :
    (ws : Text → OperationUpdate → ℕ) (id : Text) (u : OperationUpdate) (m : CheckpointManager)
    → Awake m
    → Awake (checkpoint ws id u m).1
unfolding checkpoint
checkpoint-Awake ws id u m a = record {
  busy = ground arith;
  woken = λ idle work. ground (arith, a.woken);
}

pub force_checkpoint-Awake : (m : CheckpointManager) → Awake m → Awake (force_checkpoint m).1
unfolding force_checkpoint
force_checkpoint-Awake m a = record {
  busy = ground arith;
  woken = λ idle work. ground (arith, a.woken);
}

pub wait_for_queue_completion-Awake :
    (m : CheckpointManager) → Awake m → Awake (wait_for_queue_completion m).1
unfolding wait_for_queue_completion
wait_for_queue_completion-Awake m a = record {
  busy = ground arith;
  woken = λ idle work. ground (arith, a.woken);
}

pub clear_queue-Awake : (m : CheckpointManager) → Awake m → Awake (clear_queue m)
unfolding clear_queue
clear_queue-Awake m a = record { busy = ground arith; woken = λ idle work. ground (arith, a.woken) }

module _ (hash : Text → Text) where
  pub on_immediate-Awake : (m : CheckpointManager) → Awake m → Awake (on_immediate hash m)
  unfolding on_immediate
  on_immediate-Awake m a = record {
    busy = ground arith;
    woken = λ idle work. ground (arith, a.woken);
  }

  idle_notified :
      (m : CheckpointManager)
      → m.force_checkpoint_promises ≡ []
      → is_empty m.queue ≡ true
      → Awake (notify_queue_completion (record m { is_processing = false; in_flight = none }))
  unfolding notify_queue_completion
  idle_notified m e q = record { busy = ground arith; woken = λ idle work. ground arith }

  -- The `finally` block leaves no work without a pending round.
  finish_processing-Awake :
      (m : CheckpointManager) → m.force_checkpoint_promises ≡ [] → Awake (finish_processing hash m)
  unfolding finish_processing
  finish_processing-Awake m e = elim (Bool-cases (is_empty m.queue)) [
    | inl q ↦ rw q (elim (Bool-cases (is_some m.termination_timer)) [
      | inl t ↦ rw t (idle_notified m e q)
      | inr t ↦ rw t (SameQueue-Awake (check_and_terminate-SameQueue hash _) (idle_notified m e q))
    ])
    | inr q ↦ rw q (record { busy = ground arith; woken = λ idle work. ground arith })
  ]

  pub complete_success-Awake :
      (r : CheckpointResponse) (m : CheckpointManager) → Awake (complete_success hash r m)
  unfolding complete_success
  complete_success-Awake r m =
      finish_processing-Awake (resolve_batch hash (accept_response hash r m))
        (unfold resolve_batch in refl)

  failed_force :
      (e : Thrown) (m : CheckpointManager)
      → (terminate_with checkpoint_failed
          (some (message_of (classify_checkpoint_error e)))
          (some (classify_checkpoint_error e))
          (clear_queue m)).force_checkpoint_promises
        ≡ []
  unfolding terminate_with clear_queue notify_queue_completion
  failed_force e m = ground arith

  pub complete_failure-Awake :
      (e : Thrown) (m : CheckpointManager) → Awake (complete_failure hash e m)
  unfolding complete_failure
  complete_failure-Awake e m =
      finish_processing-Awake
        (terminate_with checkpoint_failed (some (message_of (classify_checkpoint_error e)))
          (some (classify_checkpoint_error e)) (clear_queue m))
        (failed_force e m)
