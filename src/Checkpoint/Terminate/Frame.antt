-- ===== src/Checkpoint/Terminate/Frame.antt =====
-- checkpoint-manager.ts: what the decision about termination leaves alone.
use aws_durable_execution_sd.Common.{◌≡◌, refl, inl, inr, List, [], ◌∷◌, Text, Bool-cases, arith}
use aws_durable_execution_sd.Termination.{TerminationReason}
use aws_durable_execution_sd.Checkpoint.{OperationInfo, CheckpointManager}
use aws_durable_execution_sd.Checkpoint.Terminate.{
  cleanup_operation, forget, forget_orphans, is_orphan, should_terminate, check_and_terminate,
  on_cooldown, infos,
}

-- The queue, the request on the way and the promises are the same.
pub record SameQueue (m n : CheckpointManager) : Type 0 where
  pub queue : n.queue ≡ m.queue
  pub is_processing : n.is_processing ≡ m.is_processing
  pub in_flight : n.in_flight ≡ m.in_flight
  pub scheduled : n.scheduled ≡ m.scheduled
  pub token : n.current_task_token ≡ m.current_task_token
  pub force : n.force_checkpoint_promises ≡ m.force_checkpoint_promises
  pub completion : n.queue_completion_resolver ≡ m.queue_completion_resolver
  pub next_ticket : n.next_ticket ≡ m.next_ticket
  pub resolved : n.resolved ≡ m.resolved
  pub sent : n.sent ≡ m.sent
  pub disposed : n.disposed ≡ m.disposed
  pub ancestors : n.finished_ancestors ≡ m.finished_ancestors
  pub step_data : n.step_data ≡ m.step_data

pub SameQueue-refl : (m : CheckpointManager) → SameQueue m m
SameQueue-refl m = ground arith

pub SameQueue-trans : (m n o : CheckpointManager) → SameQueue m n → SameQueue n o → SameQueue m o
SameQueue-trans m n o a b = ground arith

pub cleanup_operation-SameQueue :
    (step_id : Text) (m : CheckpointManager) → SameQueue m (cleanup_operation step_id m)
unfolding cleanup_operation
cleanup_operation-SameQueue step_id m = ground arith

module _ (hash : Text → Text) where
  forget_orphans-SameQueue :
      (ops : List OperationInfo) (m : CheckpointManager) → SameQueue m (forget_orphans hash ops m)
  unfolding forget_orphans forget
  forget_orphans-SameQueue [] m = SameQueue-refl m
  forget_orphans-SameQueue (op ∷ ops) m = elim (Bool-cases (is_orphan hash m op)) [
    | inl orphan ↦ rw orphan (
        SameQueue-trans m (forget hash op.step_id m) _ (ground arith)
          (forget_orphans-SameQueue ops (forget hash op.step_id m)))
    | inr other ↦ rw other (forget_orphans-SameQueue ops m)
  ]

  pub should_terminate-SameQueue : (m : CheckpointManager) → SameQueue m (should_terminate hash m).1
  unfolding should_terminate
  should_terminate-SameQueue m =
      ground (arith, SameQueue-refl m, forget_orphans-SameQueue (infos m.operations) m)

  pub check_and_terminate-SameQueue :
      (m : CheckpointManager) → SameQueue m (check_and_terminate hash m)
  unfolding check_and_terminate
  check_and_terminate-SameQueue m = ground (arith, should_terminate-SameQueue m)

  pub on_cooldown-SameQueue :
      (reason : TerminationReason) (m : CheckpointManager) → SameQueue m (on_cooldown hash reason m)
  unfolding on_cooldown
  on_cooldown-SameQueue reason m = ground (arith, should_terminate-SameQueue m)

  forget_orphans-manager :
      (ops : List OperationInfo) (m : CheckpointManager)
      → ((forget_orphans hash ops m).termination_manager ≡ m.termination_manager)
        × ((forget_orphans hash ops m).is_terminating ≡ m.is_terminating)
  unfolding forget_orphans forget
  forget_orphans-manager [] m = (refl, refl)
  forget_orphans-manager (op ∷ ops) m =
      ground
        (arith, forget_orphans-manager ops (forget hash op.step_id m), forget_orphans-manager ops m)

  -- The decision itself terminates nothing.
  pub should_terminate-manager :
      (m : CheckpointManager)
      → ((should_terminate hash m).1.termination_manager ≡ m.termination_manager)
        × ((should_terminate hash m).1.is_terminating ≡ m.is_terminating)
  unfolding should_terminate
  should_terminate-manager m = ground (arith, forget_orphans-manager (infos m.operations) m)

  pub check_and_terminate-manager :
      (m : CheckpointManager)
      → ((check_and_terminate hash m).termination_manager ≡ m.termination_manager)
        × ((check_and_terminate hash m).is_terminating ≡ m.is_terminating)
  unfolding check_and_terminate
  check_and_terminate-manager m = ground (arith, should_terminate-manager m)
