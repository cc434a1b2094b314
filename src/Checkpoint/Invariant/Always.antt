-- ===== src/Checkpoint/Invariant/Always.antt =====
-- checkpoint-manager.ts: what holds of a `CheckpointManager` between two steps.
use aws_durable_execution_sd.Common.{
  List, ℕ, ◌≡◌, subst, inl, inr, Bool, Option, none, some, Text, Bool-cases, arith,
}
use aws_durable_execution_sd.Wire.{Operation, OperationUpdate, OperationStatus}
use aws_durable_execution_sd.Checkpoint.Queue.{Promise}
use aws_durable_execution_sd.Termination.{TerminationManager}
use aws_durable_execution_sd.Checkpoint.{
  new_checkpoint_manager, CheckpointError, CheckpointManager, OperationInfo,
  OperationLifecycleState, executing, retry_waiting, idle_not_awaited, idle_awaited, completed,
  OperationMetadata,
}
use aws_durable_execution_sd.Checkpoint.Terminate.{check_and_terminate, cleanup_all_operations}
use aws_durable_execution_sd.Checkpoint.Terminate.Frame.{
  SameQueue, SameQueue-refl, SameQueue-trans, check_and_terminate-SameQueue, on_cooldown-SameQueue,
  cleanup_operation-SameQueue,
}
use aws_durable_execution_sd.Checkpoint.Queue.{set_terminating, mark_ancestor_finished}
use aws_durable_execution_sd.Checkpoint.Lifecycle.{
  mark_operation_state, mark_operation_awaited, wait_for_retry_timer, wait_for_status_change,
  check_unless_not_awaited, cleanup_if_completed, mark_found, wait_found, wait_in, await_found,
  is_idle_not_awaited, is_retrying, is_idle_awaited, await_change, returns,
}
use aws_durable_execution_sd.Checkpoint.Timers.{
  force_refresh, after_refresh, dispose, start_timer_with_polling, Remaining, find_info,
}
use aws_durable_execution_sd.Checkpoint.Steps.{
  Step, enqueues, forces, waits_for_queue, clears, terminates, finishes_ancestor, runs, answered,
  fails, marks, awaits, waits_for_retry, waits_for_change, cools_down, polls, refreshes, disposes,
  Steps, here, next,
}
use aws_durable_execution_sd.Checkpoint.Invariant.{
  returned, Awake, SameQueue-Awake, checkpoint-Awake, force_checkpoint-Awake,
  wait_for_queue_completion-Awake, clear_queue-Awake, on_immediate-Awake, complete_success-Awake,
  complete_failure-Awake,
}

module _ (hash : Text → Text) where
  checked : (m n : CheckpointManager) → SameQueue m n → SameQueue m (check_and_terminate hash n)
  checked m n q = SameQueue-trans m n _ q (check_and_terminate-SameQueue hash n)

  settle-SameQueue :
      (step_id : Text) (s : OperationLifecycleState) (m n : CheckpointManager)
      → SameQueue m n
      → SameQueue m (check_unless_not_awaited hash s (cleanup_if_completed hash s step_id n))
  settle-SameQueue step_id executing m n q = checked m n q
  settle-SameQueue step_id retry_waiting m n q = checked m n q
  settle-SameQueue step_id idle_not_awaited m n q = q
  settle-SameQueue step_id idle_awaited m n q = checked m n q
  settle-SameQueue step_id completed m n q =
      checked m _ (SameQueue-trans m n _ q (cleanup_operation-SameQueue step_id n))

  mark_operation_state-SameQueue :
      (step_id : Text) (s : OperationLifecycleState) (d : Option OperationMetadata) (t : Option ℕ)
      (m n : CheckpointManager)
      → mark_operation_state hash step_id s d t m ≡ returns n
      → SameQueue m n
  unfolding mark_operation_state
  mark_operation_state-SameQueue step_id s d t m = go (find_info m step_id) d
    where
      go :
          (o : Option OperationInfo) (d : Option OperationMetadata) (n : CheckpointManager)
          → mark_found hash step_id s d t m o ≡ returns n
          → SameQueue m n
      go none none n h = absurd (ground (arith, h))
      go none (some x) n h =
          subst (SameQueue m) (returned h) (settle-SameQueue step_id s m _ (ground arith))
      go (some op) d n h =
          subst (SameQueue m) (returned h) (settle-SameQueue step_id s m _ (ground arith))

  mark_operation_awaited-SameQueue :
      (step_id : Text) (m : CheckpointManager) → SameQueue m (mark_operation_awaited hash step_id m)
  unfolding mark_operation_awaited
  mark_operation_awaited-SameQueue step_id m = go (find_info m step_id)
    where
      go : (o : Option OperationInfo) → SameQueue m (await_found hash step_id m o)
      go none = SameQueue-refl m
      go (some op) = elim (Bool-cases (is_idle_not_awaited op.state)) [
        | inl e ↦ rw e (checked m _ (ground arith))
        | inr e ↦ rw e (SameQueue-refl m)
      ]

  await_change-Awake :
      (r : Remaining) (now : ℕ) (step_id : Text) (op : OperationInfo) (m : CheckpointManager)
      → Awake m
      → Awake (await_change hash r now step_id op m).1
  unfolding start_timer_with_polling
  await_change-Awake r now step_id op m a = record {
    busy = ground (arith, a.busy);
    woken = λ idle work. ground (arith, a.woken);
  }

  wait_in-Awake :
      (expected : OperationLifecycleState → Bool) (r : Remaining) (now : ℕ) (step_id : Text)
      (p : Promise) (m n : CheckpointManager)
      → wait_in hash expected r now step_id m ≡ returns (p, n)
      → Awake m
      → Awake n
  wait_in-Awake expected r now step_id p m n h a = go (find_info m step_id) h
    where
      go :
          (o : Option OperationInfo)
          → wait_found hash expected r now step_id m o ≡ returns (p, n)
          → Awake n
      go none h = absurd (ground (arith, h))
      go (some op) h = elim (Bool-cases (expected op.state)) [
        | inl e ↦ subst Awake (ground (arith, h)) (await_change-Awake r now step_id op m a)
        | inr e ↦ absurd (ground (arith, h))
      ]

  force_refresh-Awake :
      (r : Remaining) (step_id : Text) (m : CheckpointManager)
      → Awake m
      → Awake (force_refresh hash r step_id m).1
  unfolding force_refresh
  force_refresh-Awake r step_id m a = record {
    busy = ground (arith, a.busy);
    woken = λ idle work. ground (arith, a.woken);
  }

  after_refresh-Awake :
      (step_id : Text) (o : Option OperationStatus) (m : CheckpointManager)
      → Awake m
      → Awake (after_refresh hash step_id o m)
  unfolding after_refresh
  after_refresh-Awake step_id o m a = record {
    busy = ground (arith, a.busy);
    woken = λ idle work. ground (arith, a.woken);
  }

dispose-Awake : (m : CheckpointManager) → Awake m → Awake (dispose m)
unfolding dispose cleanup_all_operations
dispose-Awake m a = record {
  busy = ground (arith, a.busy);
  woken = λ idle work. ground (arith, a.woken);
}

set_terminating-Awake : (m : CheckpointManager) → Awake m → Awake (set_terminating m)
unfolding set_terminating
set_terminating-Awake m a = record {
  busy = ground (arith, a.busy);
  woken = λ idle work. ground (arith, a.woken);
}

mark_ancestor_finished-Awake :
    (t : Text) (m : CheckpointManager) → Awake m → Awake (mark_ancestor_finished t m)
unfolding mark_ancestor_finished
mark_ancestor_finished-Awake t m a = record {
  busy = ground (arith, a.busy);
  woken = λ idle work. ground (arith, a.woken);
}

module _ (hash : Text → Text) (wire_size : Text → OperationUpdate → ℕ) where
  pub Step-Awake : {m n : CheckpointManager} → Step hash wire_size m n → Awake m → Awake n
  Step-Awake (enqueues t u m) a = checkpoint-Awake wire_size t u m a
  Step-Awake (forces m) a = force_checkpoint-Awake m a
  Step-Awake (waits_for_queue m) a = wait_for_queue_completion-Awake m a
  Step-Awake (clears m) a = clear_queue-Awake m a
  Step-Awake (terminates m) a = set_terminating-Awake m a
  Step-Awake (finishes_ancestor t m) a = mark_ancestor_finished-Awake t m a
  Step-Awake (runs m _) a = on_immediate-Awake hash m a
  Step-Awake (answered r m _) a = complete_success-Awake hash r m
  Step-Awake (fails e m _) a = complete_failure-Awake hash e m
  Step-Awake {m} {n} (marks t s d k h) a =
      SameQueue-Awake (mark_operation_state-SameQueue hash t s d k m n h) a
  Step-Awake (awaits t m) a = SameQueue-Awake (mark_operation_awaited-SameQueue hash t m) a
  Step-Awake {m} {n} (waits_for_retry r now t p h) a =
      wait_in-Awake hash is_retrying r now t p m n (unfold wait_for_retry_timer in h) a
  Step-Awake {m} {n} (waits_for_change r now t p h) a =
      wait_in-Awake hash is_idle_awaited r now t p m n (unfold wait_for_status_change in h) a
  Step-Awake (cools_down reason m _) a = SameQueue-Awake (on_cooldown-SameQueue hash reason m) a
  Step-Awake (polls r t m) a = force_refresh-Awake hash r t m a
  Step-Awake (refreshes t o m) a = after_refresh-Awake hash t o m a
  Step-Awake (disposes m) a = dispose-Awake m a

  Steps-keep : {m n : CheckpointManager} → Steps hash wire_size m n → Awake m → Awake n
  Steps-keep here a = a
  Steps-keep (next s t) a = Step-Awake t (Steps-keep s a)

  -- However the calls of the SDK, the timers, the rounds and the answers follow one another, a manager
  -- has a request on the way just when its flag says that it is processing, and whenever it is not and
  -- an update or a force request waits, a round that will send it is pending.
  pub Steps-Awake :
      (token : Text) (step_data : List (Text × Operation)) (ancestors : List Text)
      (t : TerminationManager CheckpointError) (n : CheckpointManager)
      → Steps hash wire_size (new_checkpoint_manager token step_data ancestors t) n
      → Awake n
  Steps-Awake token step_data ancestors t n s =
      Steps-keep s
        (record { busy = ground arith; woken = λ idle work. absurd (ground (arith, work)) })
