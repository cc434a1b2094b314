-- ===== src/Checkpoint/Terminate.antt =====
-- checkpoint-manager.ts: cleaning operations up, and the central decision to end the invocation.
-- `hash` stands for the MD5 digest under `hashId`, which Node's crypto module computes.
pub mod Frame
pub mod Orphans
pub mod Safety
use aws_durable_execution_sd.Common.{
  ℕ, ◌≡◌, refl, Bool, true, false, not, ◌&&◌, ◌||◌, Option, none, some, List, [], ◌∷◌, map, Text,
  Text-discrete, codes, any, is_empty, contains, if◌then◌else◌, is_some, arith,
}
use aws_durable_execution_sd.Common.Map
use aws_durable_execution_sd.Termination.{
  TerminationReason, TerminationReason-discrete, retry_scheduled, wait_scheduled, callback_pending,
  TerminationManager, TerminationOptions, terminate,
}
use aws_durable_execution_sd.Checkpoint.Ids.{has_finished_ancestor}
use aws_durable_execution_sd.Checkpoint.{
  OperationLifecycleState, executing, retry_waiting, idle_not_awaited, idle_awaited, completed,
  OperationSubType, step_sub, wait_sub, OperationInfo, CheckpointError, CheckpointManager,
}

abbrev pub is_executing : OperationLifecycleState → Bool
is_executing executing = true
is_executing _ = false

abbrev pub is_retry_waiting : OperationLifecycleState → Bool
is_retry_waiting retry_waiting = true
is_retry_waiting _ = false

abbrev pub is_idle : OperationLifecycleState → Bool
is_idle idle_not_awaited = true
is_idle idle_awaited = true
is_idle _ = false

abbrev pub is_waiting : OperationLifecycleState → Bool
is_waiting s = is_retry_waiting s || is_idle s

abbrev is_step : OperationSubType → Bool
is_step step_sub = true
is_step _ = false

abbrev is_wait : OperationSubType → Bool
is_wait wait_sub = true
is_wait _ = false

-- The values of the operations map.
abbrev pub infos : List (Text × OperationInfo) → List OperationInfo
infos = map (λ e. e.1)

abbrev pub quiet : OperationInfo → OperationInfo
quiet op = record op { timer = none; resolver = none }

unfoldable pub cleanup_operation : Text → CheckpointManager → CheckpointManager
cleanup_operation step_id m = elim (Map.get Text-discrete m.operations step_id) [
  | none ↦ m
  | some op ↦ record m { operations = Map.set Text-discrete m.operations step_id (quiet op) }
]

unfoldable pub cleanup_all_operations : CheckpointManager → CheckpointManager
cleanup_all_operations m = record m { operations = map (λ e. (e.0, quiet e.1)) m.operations }

unfoldable pub determine_termination_reason : List OperationInfo → TerminationReason
determine_termination_reason ops =
    if any (λ op. is_retry_waiting op.state && is_step op.metadata.sub_type) ops
    then retry_scheduled
    else if any (λ op. is_idle op.state && is_wait op.metadata.sub_type) ops
    then wait_scheduled
    else callback_pending

unfoldable pub abort_termination : CheckpointManager → CheckpointManager
abort_termination m =
    if is_some m.termination_timer
    then record m { termination_timer = none; termination_reason = none }
    else m

-- `this.terminationTimer && this.terminationReason === reason`
abbrev already_scheduled : CheckpointManager → TerminationReason → Bool
already_scheduled m reason = elim m.termination_reason [
  | none ↦ false
  | some r ↦ elim (TerminationReason-discrete r reason) [
    | yes _ ↦ is_some m.termination_timer
    | no _ ↦ false
  ]
]

unfoldable pub schedule_termination : TerminationReason → CheckpointManager → CheckpointManager
unfolding abort_termination
schedule_termination reason m =
    if already_scheduled m reason then m else record (abort_termination m) {
      termination_reason = some reason;
      termination_timer = some reason;
    }

-- `terminationManager.terminate`; the callback that with-durable-execution.ts registers there is
-- `setTerminating`.
unfoldable pub terminate_with :
    TerminationReason → Option Text → Option CheckpointError → CheckpointManager → CheckpointManager
unfolding terminate
terminate_with reason message error m =
    let (t, told) =
      terminate m.termination_manager
        (record { reason = some reason; message = message; error = error }) in
    record m { termination_manager = t; is_terminating = m.is_terminating || told }

unfoldable pub execute_termination : TerminationReason → CheckpointManager → CheckpointManager
unfolding cleanup_all_operations terminate_with
execute_termination reason m =
    terminate_with reason none none
      (cleanup_all_operations (record m { termination_timer = none; termination_reason = none }))

module _ (hash : Text → Text) where
  -- Rule 5 forgets a waiting operation that has a finished ancestor.
  unfoldable pub forget : Text → CheckpointManager → CheckpointManager
  forget step_id m = record m {
    operations = Map.delete Text-discrete m.operations step_id;
    hashed_id_index = Map.delete Text-discrete m.hashed_id_index (hash step_id);
  }

  abbrev pub is_orphan : CheckpointManager → OperationInfo → Bool
  is_orphan m op =
      is_waiting op.state && has_finished_ancestor m.finished_ancestors op.metadata.step_id

  -- `cleanupOperation` before the deletion changes a record that is then gone.
  unfoldable pub forget_orphans : List OperationInfo → CheckpointManager → CheckpointManager
  unfolding forget
  forget_orphans [] m = m
  forget_orphans (op ∷ ops) m =
      forget_orphans ops (if is_orphan m op then forget op.step_id m else m)

  unfoldable pub should_terminate : CheckpointManager → Option TerminationReason × CheckpointManager
  unfolding forget_orphans determine_termination_reason
  should_terminate m =
      if not (is_empty m.queue)
        || m.is_processing
        || not (is_empty m.force_checkpoint_promises)
        || any (λ op. is_executing op.state) (infos m.operations)
      then (none, m)
      else let rest = forget_orphans (infos m.operations) m in
        let remaining = infos rest.operations in
        (
          if any (λ op. is_waiting op.state) remaining
              then some (determine_termination_reason remaining)
              else none,
          rest,
        )

  unfoldable pub check_and_terminate : CheckpointManager → CheckpointManager
  unfolding should_terminate schedule_termination abort_termination
  check_and_terminate m =
      let (reason, m') = should_terminate m in
      elim reason [ some r ↦ schedule_termination r m' | none ↦ abort_termination m' ]

  -- The callback of the cooldown timer, which holds the reason that it was scheduled with.
  unfoldable pub on_cooldown : TerminationReason → CheckpointManager → CheckpointManager
  unfolding should_terminate abort_termination execute_termination
  on_cooldown reason m =
      let (still, m') = should_terminate m in
      elim still [ some _ ↦ execute_termination reason m' | none ↦ abort_termination m' ]
