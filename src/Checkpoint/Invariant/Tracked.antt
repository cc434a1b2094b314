-- ===== src/Checkpoint/Invariant/Tracked.antt =====
-- checkpoint-manager.ts: the queue's operations and the timers keep the records of the `operations` map
-- under their own step ids.
pub mod Ended
use aws_durable_execution_sd.Common.{
  ℕ, ◌+◌, ◌≡◌, ◌≢◌, ◌⊎◌, refl, sym, ◌∙◌, ap, subst, inl, inr, Bool, true, false, not, ◌&&◌, ◌||◌,
  Option, none, some, List, [], ◌∷◌, ◌++◌, Text, Text-discrete, Bool-cases, Option-cases, if-either,
  is_some, is_empty, present, arith, if◌then◌else◌,
}
use aws_durable_execution_sd.Common.Map
use aws_durable_execution_sd.Wire.{Operation, OperationUpdate, OperationStatus, same_status}
use aws_durable_execution_sd.Termination.{TerminationReason, checkpoint_failed}
use aws_durable_execution_sd.Checkpoint.{
  OperationInfo, CheckpointManager, OperationLifecycleState, OperationMetadata, executing,
  retry_waiting, idle_not_awaited, idle_awaited, completed,
}
use aws_durable_execution_sd.Checkpoint.Classify.{Thrown, classify_checkpoint_error, message_of}
use aws_durable_execution_sd.Checkpoint.Terminate.{
  cleanup_operation, cleanup_all_operations, check_and_terminate, terminate_with, on_cooldown,
}
use aws_durable_execution_sd.Checkpoint.Terminate.Orphans.{IsKeyed}
use aws_durable_execution_sd.Checkpoint.Terminate.Safety.{MayEnd, on_cooldown-MayEnd}
use aws_durable_execution_sd.Checkpoint.Queue.{
  Promise, CheckpointResponse, checkpoint, force_checkpoint, wait_for_queue_completion, clear_queue,
  set_terminating, mark_ancestor_finished, on_immediate, process_queue, complete_success,
  complete_failure, finish_processing, notify_queue_completion, resolve_batch, accept_response,
  update_step_data, update_one, resolve_waiting_operation, status_of, resolve_operation, renewed,
}
use aws_durable_execution_sd.Checkpoint.Timers.{
  Remaining, find_info, put_info, start_timer_with_polling, force_refresh, refresh_found,
  after_refresh, after_found, dispose, polled_again, resolve_change, too_little_left, stored_status,
}
use aws_durable_execution_sd.Checkpoint.Lifecycle.{
  mark_operation_state, mark_found, mark_operation_awaited, await_found, await_change, wait_found,
  wait_in, wait_for_retry_timer, wait_for_status_change, returns, is_retrying, is_idle_awaited,
  marked, is_idle_not_awaited, check_unless_not_awaited, cleanup_if_completed, new_info,
}
use aws_durable_execution_sd.Checkpoint.Polling.{start_timer_with_polling-Fits, armed}
use aws_durable_execution_sd.Checkpoint.Steps.{
  Step, enqueues, forces, waits_for_queue, clears, terminates, finishes_ancestor, runs, answered,
  fails, marks, awaits, waits_for_retry, waits_for_change, cools_down, polls, refreshes, disposes,
  Steps, here, next,
}
use aws_durable_execution_sd.Checkpoint.Invariant.Keyed.{
  set-IsKeyed, put-IsKeyed, quiet-IsKeyed, cleanup_operation-IsKeyed, check_and_terminate-IsKeyed,
  on_cooldown-IsKeyed,
}

abbrev pub Keyed : CheckpointManager → Type 0
Keyed m = IsKeyed m.operations

-- The calls that leave the map alone.
pub checkpoint-operations :
    (ws : Text → OperationUpdate → ℕ) (id : Text) (u : OperationUpdate) (m : CheckpointManager)
    → (checkpoint ws id u m).1.operations ≡ m.operations
unfolding checkpoint
checkpoint-operations ws id u m = ground arith

pub force_checkpoint-operations :
    (m : CheckpointManager) → (force_checkpoint m).1.operations ≡ m.operations
unfolding force_checkpoint
force_checkpoint-operations m = ground arith

pub wait_for_queue_completion-operations :
    (m : CheckpointManager) → (wait_for_queue_completion m).1.operations ≡ m.operations
unfolding wait_for_queue_completion
wait_for_queue_completion-operations m = ground arith

pub clear_queue-operations : (m : CheckpointManager) → (clear_queue m).operations ≡ m.operations
unfolding clear_queue
clear_queue-operations m = ground arith

pub dispose-Keyed : (m : CheckpointManager) → Keyed m → Keyed (dispose m)
unfolding dispose cleanup_all_operations
dispose-Keyed m k = if-either Keyed m.disposed _ _ k (quiet-IsKeyed m.operations k)

pub start_timer_with_polling-Keyed :
    (r : Remaining) (now : ℕ) (id : Text) (e : Option ℕ) (m : CheckpointManager)
    → Keyed m
    → Keyed (start_timer_with_polling r now id e m)
start_timer_with_polling-Keyed r now id e m k = elim (start_timer_with_polling-Fits r now id e m) [
  | inl same ↦ subst Keyed (sym same) k
  | inr (op, f, d, fits, a) ↦ subst Keyed (sym a) (put-IsKeyed m id op _ k f refl)
]

module _ (hash : Text → Text) where
  pub on_immediate-operations :
      (m : CheckpointManager) → (on_immediate hash m).operations ≡ m.operations
  unfolding on_immediate
  on_immediate-operations m = ground arith

  resolve_waiting_operation-Keyed :
      (id : Text) (m : CheckpointManager) → Keyed m → Keyed (resolve_waiting_operation hash id m)
  unfolding resolve_waiting_operation
  resolve_waiting_operation-Keyed id m k = by_id (Map.get Text-discrete m.hashed_id_index id)
    where
      by_op :
          (step_id : Text) (o : Option OperationInfo)
          → find_info m step_id ≡ o
          → Keyed (elim o as (λ x. CheckpointManager) [
            | none ↦ m
            | some op ↦ resolve_operation hash step_id op m
          ])
      by_op step_id none e = k
      by_op step_id (some op) e = elim (Option-cases op.resolver) [
        | inl n ↦ rw n k
        | inr (t, n) ↦ rw n (put-IsKeyed m step_id op _ k e refl)
      ]

      by_id :
          (i : Option Text)
          → Keyed (elim i as (λ x. CheckpointManager) [
            | none ↦ m
            | some step_id ↦ elim (find_info m step_id) as (λ x. CheckpointManager) [
              | none ↦ m
              | some op ↦ resolve_operation hash step_id op m
            ]
          ])
      by_id none = k
      by_id (some step_id) = by_op step_id (find_info m step_id) refl

  update_one-Keyed :
      (op : Operation) (m : CheckpointManager) → Keyed m → Keyed (update_one hash op m)
  unfolding update_one
  update_one-Keyed op m k = go (present op.id)
    where
      go :
          (i : Option Text)
          → Keyed (elim i as (λ x. CheckpointManager) [
            | none ↦ m
            | some id ↦
                let stored = record m { step_data = Map.set Text-discrete m.step_data id op } in
                if same_status (status_of hash m id) op.status
                then stored
                else resolve_waiting_operation hash id stored
          ])
      go none = k
      go (some id) =
          if-either Keyed (same_status (status_of hash m id) op.status) _ _ k
            (resolve_waiting_operation-Keyed id _ k)

  update_step_data-Keyed :
      (ops : List Operation) (m : CheckpointManager) → Keyed m → Keyed (update_step_data hash ops m)
  unfolding update_step_data
  update_step_data-Keyed [] m k = k
  update_step_data-Keyed (op ∷ ops) m k =
      update_step_data-Keyed ops (update_one hash op m) (update_one-Keyed op m k)

  finish_processing-Keyed : (m : CheckpointManager) → Keyed m → Keyed (finish_processing hash m)
  unfolding finish_processing
  finish_processing-Keyed m k =
      let idle =
        (let i : CheckpointManager = record m { is_processing = false; in_flight = none } in i) in
      let n = subst IsKeyed (sym (notified idle)) k in
      if-either Keyed (not (is_empty m.queue)) _ _ k (
        if-either Keyed (is_some m.termination_timer) _ _ n
          (check_and_terminate-IsKeyed hash (notify_queue_completion idle) n))
    where
      notified : (m : CheckpointManager) → (notify_queue_completion m).operations ≡ m.operations
      notified m = unfold notify_queue_completion in ground arith

  pub complete_success-Keyed :
      (r : CheckpointResponse) (m : CheckpointManager) → Keyed m → Keyed (complete_success hash r m)
  unfolding complete_success accept_response resolve_batch
  complete_success-Keyed r m k =
      finish_processing-Keyed (resolve_batch hash (accept_response hash r m))
        (accepted r.operations)
    where
      accepted :
          (o : Option (List Operation))
          → Keyed (elim o as (λ x. CheckpointManager) [
            | none ↦ renewed hash r m
            | some ops ↦ update_step_data hash ops (renewed hash r m)
          ])
      accepted none = k
      accepted (some ops) = update_step_data-Keyed ops (renewed hash r m) k

  pub complete_failure-Keyed :
      (e : Thrown) (m : CheckpointManager) → Keyed m → Keyed (complete_failure hash e m)
  unfolding complete_failure terminate_with
  complete_failure-Keyed e m k =
      finish_processing-Keyed
        (terminate_with checkpoint_failed (some (message_of (classify_checkpoint_error e)))
          (some (classify_checkpoint_error e)) (clear_queue m))
        (subst IsKeyed (sym (clear_queue-operations m)) k)
