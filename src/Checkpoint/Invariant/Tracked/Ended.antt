-- ===== src/Checkpoint/Invariant/Tracked/Ended.antt =====
-- checkpoint-manager.ts: every step keeps the records under their own step ids, and what that says of
-- the end of an invocation.
use aws_durable_execution_sd.Common.{
  List, ℕ, ◌+◌, ◌≡◌, refl, sym, subst, inl, inr, Bool, true, false, Option, none, some, Text,
  Bool-cases, if-either, arith,
}
use aws_durable_execution_sd.Wire.{Operation, OperationUpdate, OperationStatus, same_status}
use aws_durable_execution_sd.Termination.{TerminationManager, TerminationReason}
use aws_durable_execution_sd.Checkpoint.{
  new_checkpoint_manager, CheckpointError, OperationInfo, CheckpointManager,
  OperationLifecycleState, OperationMetadata, executing, retry_waiting, idle_not_awaited,
  idle_awaited, completed,
}
use aws_durable_execution_sd.Checkpoint.Terminate.{on_cooldown}
use aws_durable_execution_sd.Checkpoint.Terminate.Orphans.{IsKeyed}
use aws_durable_execution_sd.Checkpoint.Terminate.Safety.{MayEnd, on_cooldown-MayEnd}
use aws_durable_execution_sd.Checkpoint.Queue.{Promise, set_terminating, mark_ancestor_finished}
use aws_durable_execution_sd.Checkpoint.Timers.{
  Remaining, find_info, put_info, start_timer_with_polling, force_refresh, refresh_found,
  after_refresh, after_found, too_little_left, stored_status,
}
use aws_durable_execution_sd.Checkpoint.Lifecycle.{
  mark_operation_state, mark_found, mark_operation_awaited, await_found, await_change, wait_found,
  wait_in, wait_for_retry_timer, wait_for_status_change, returns, is_retrying, is_idle_awaited,
  marked, is_idle_not_awaited, check_unless_not_awaited, cleanup_if_completed, new_info,
}
use aws_durable_execution_sd.Checkpoint.Steps.{
  Step, enqueues, forces, waits_for_queue, clears, terminates, finishes_ancestor, runs, answered,
  fails, marks, awaits, waits_for_retry, waits_for_change, cools_down, polls, refreshes, disposes,
  Steps, here, next,
}
use aws_durable_execution_sd.Checkpoint.Invariant.{returned}
use aws_durable_execution_sd.Checkpoint.Invariant.Keyed.{
  set-IsKeyed, put-IsKeyed, cleanup_operation-IsKeyed, check_and_terminate-IsKeyed,
  on_cooldown-IsKeyed,
}
use aws_durable_execution_sd.Checkpoint.Invariant.Tracked.{
  Keyed, checkpoint-operations, force_checkpoint-operations, wait_for_queue_completion-operations,
  clear_queue-operations, dispose-Keyed, start_timer_with_polling-Keyed, on_immediate-operations,
  complete_success-Keyed, complete_failure-Keyed,
}

module _ (hash : Text → Text) where
  settle-Keyed :
      (step_id : Text) (s : OperationLifecycleState) (m : CheckpointManager)
      → Keyed m
      → Keyed (check_unless_not_awaited hash s (cleanup_if_completed hash s step_id m))
  settle-Keyed id executing m k = check_and_terminate-IsKeyed hash m k
  settle-Keyed id retry_waiting m k = check_and_terminate-IsKeyed hash m k
  settle-Keyed id idle_not_awaited m k = k
  settle-Keyed id idle_awaited m k = check_and_terminate-IsKeyed hash m k
  settle-Keyed id completed m k =
      check_and_terminate-IsKeyed hash _ (cleanup_operation-IsKeyed id m k)

  mark_operation_state-Keyed :
      (step_id : Text) (s : OperationLifecycleState) (d : Option OperationMetadata) (t : Option ℕ)
      (m n : CheckpointManager)
      → Keyed m
      → mark_operation_state hash step_id s d t m ≡ returns n
      → Keyed n
  unfolding mark_operation_state
  mark_operation_state-Keyed id s d t m n k = go (find_info m id) d refl
    where
      go :
          (o : Option OperationInfo) (d : Option OperationMetadata)
          → find_info m id ≡ o
          → mark_found hash id s d t m o ≡ returns n
          → Keyed n
      go none none f h = absurd (ground (arith, h))
      go none (some x) f h =
          subst Keyed (returned h)
            (settle-Keyed id s _ (set-IsKeyed m.operations id (new_info hash id s x t) k refl))
      go (some op) d f h =
          subst Keyed (returned h)
            (settle-Keyed id s _ (put-IsKeyed m id op (marked hash op s t) k f refl))

  mark_operation_awaited-Keyed :
      (step_id : Text) (m : CheckpointManager)
      → Keyed m
      → Keyed (mark_operation_awaited hash step_id m)
  unfolding mark_operation_awaited
  mark_operation_awaited-Keyed id m k = go (find_info m id) refl
    where
      go : (o : Option OperationInfo) → find_info m id ≡ o → Keyed (await_found hash id m o)
      go none f = k
      go (some op) f =
          if-either Keyed (is_idle_not_awaited op.state) _ _
            (check_and_terminate-IsKeyed hash _ (put-IsKeyed m id op _ k f refl)) k

  await_change-Keyed :
      (r : Remaining) (now : ℕ) (id : Text) (op : OperationInfo) (m : CheckpointManager)
      → Keyed m
      → Keyed (await_change hash r now id op m).1
  await_change-Keyed r now id op m k =
      if-either (λ (p : Promise × CheckpointManager). Keyed p.1) _ _ _ k
        (go (find_info polled id) refl)
    where
      polled : CheckpointManager
      polled = start_timer_with_polling r now id op.end_timestamp m

      go :
          (o : Option OperationInfo)
          → find_info polled id ≡ o
          → Keyed (elim o as (λ x. CheckpointManager) [
            | none ↦ record polled { next_ticket = m.next_ticket + 1 }
            | some op' ↦
                record (put_info id (record op' { resolver = some m.next_ticket }) polled) {
                  next_ticket = m.next_ticket + 1;
                }
          ])
      go none e = start_timer_with_polling-Keyed r now id op.end_timestamp m k
      go (some o) e =
          put-IsKeyed polled id o _ (start_timer_with_polling-Keyed r now id op.end_timestamp m k) e
            refl

  wait_in-Keyed :
      (expected : OperationLifecycleState → Bool) (r : Remaining) (now : ℕ) (id : Text)
      (p : Promise) (m n : CheckpointManager)
      → wait_in hash expected r now id m ≡ returns (p, n)
      → Keyed m
      → Keyed n
  wait_in-Keyed expected r now id p m n h k = go (find_info m id) h
    where
      go :
          (o : Option OperationInfo)
          → wait_found hash expected r now id m o ≡ returns (p, n)
          → Keyed n
      go none h = absurd (ground (arith, h))
      go (some op) h = elim (Bool-cases (expected op.state)) [
        | inl e ↦
            subst Keyed (let q : (await_change hash r now id op m).1 ≡ n = ground (arith, h) in q)
              (await_change-Keyed r now id op m k)
        | inr e ↦ absurd (ground (arith, h))
      ]

  after_refresh-Keyed :
      (id : Text) (old : Option OperationStatus) (m : CheckpointManager)
      → Keyed m
      → Keyed (after_refresh hash id old m)
  unfolding after_refresh
  after_refresh-Keyed id old m k = go (find_info m id) refl
    where
      go : (o : Option OperationInfo) → find_info m id ≡ o → Keyed (after_found hash id old m o)
      go none f = k
      go (some op) f =
          if-either Keyed (same_status (stored_status hash m id) old) _ _
            (put-IsKeyed m id op _ k f refl) (put-IsKeyed m id op _ k f refl)

  force_refresh-Keyed :
      (r : Remaining) (id : Text) (m : CheckpointManager)
      → Keyed m
      → Keyed (force_refresh hash r id m).1
  unfolding force_refresh
  force_refresh-Keyed r id m k =
      if-either (λ (p : Option (Promise × Option OperationStatus) × CheckpointManager). Keyed p.1)
        m.disposed _ _ k (go (find_info m id) refl)
    where
      go : (o : Option OperationInfo) → find_info m id ≡ o → Keyed (refresh_found hash r id m o).1
      go none f = k
      go (some op) f =
          if-either
            (λ (p : Option (Promise × Option OperationStatus) × CheckpointManager). Keyed p.1)
            (too_little_left hash r) _ _ (put-IsKeyed m id op _ k f refl)
            (subst IsKeyed (sym (force_checkpoint-operations m)) k)

module _ (hash : Text → Text) (wire_size : Text → OperationUpdate → ℕ) where
  Step-Keyed : {m n : CheckpointManager} → Step hash wire_size m n → Keyed m → Keyed n
  Step-Keyed (enqueues t u m) k = subst IsKeyed (sym (checkpoint-operations wire_size t u m)) k
  Step-Keyed (forces m) k = subst IsKeyed (sym (force_checkpoint-operations m)) k
  Step-Keyed (waits_for_queue m) k = subst IsKeyed (sym (wait_for_queue_completion-operations m)) k
  Step-Keyed (clears m) k = subst IsKeyed (sym (clear_queue-operations m)) k
  Step-Keyed (terminates m) k = unfold set_terminating in k
  Step-Keyed (finishes_ancestor t m) k = unfold mark_ancestor_finished in k
  Step-Keyed (runs m _) k = subst IsKeyed (sym (on_immediate-operations hash m)) k
  Step-Keyed (answered r m _) k = complete_success-Keyed hash r m k
  Step-Keyed (fails e m _) k = complete_failure-Keyed hash e m k
  Step-Keyed {m} {n} (marks t s d e h) k = mark_operation_state-Keyed hash t s d e m n k h
  Step-Keyed (awaits t m) k = mark_operation_awaited-Keyed hash t m k
  Step-Keyed {m} {n} (waits_for_retry r now t p h) k =
      wait_in-Keyed hash is_retrying r now t p m n (unfold wait_for_retry_timer in h) k
  Step-Keyed {m} {n} (waits_for_change r now t p h) k =
      wait_in-Keyed hash is_idle_awaited r now t p m n (unfold wait_for_status_change in h) k
  Step-Keyed (cools_down reason m _) k = on_cooldown-IsKeyed hash reason m k
  Step-Keyed (polls r t m) k = force_refresh-Keyed hash r t m k
  Step-Keyed (refreshes t o m) k = after_refresh-Keyed hash t o m k
  Step-Keyed (disposes m) k = dispose-Keyed m k

  Steps-Keyed : {m n : CheckpointManager} → Steps hash wire_size m n → Keyed m → Keyed n
  Steps-Keyed here k = k
  Steps-Keyed (next s t) k = Step-Keyed t (Steps-Keyed s k)

  -- In every state that a manager comes to, however its steps follow one another, the cooldown's
  -- callback ends the invocation, where it has not ended, only while no update is queued, no request or
  -- force request is on the way, no operation runs user code, and some operation waits that has no
  -- finished ancestor.
  pub Steps-MayEnd :
      (token : Text) (step_data : List (Text × Operation)) (ancestors : List Text)
      (t : TerminationManager CheckpointError) (n : CheckpointManager) (reason : TerminationReason)
      → Steps hash wire_size (new_checkpoint_manager token step_data ancestors t) n
      → n.termination_manager.is_terminated ≡ false
      → (on_cooldown hash reason n).termination_manager.is_terminated ≡ true
      → MayEnd hash n
  Steps-MayEnd token step_data ancestors t n reason steps before after =
      on_cooldown-MayEnd hash reason n (Steps-Keyed steps tt) before after
