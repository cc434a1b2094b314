-- ===== src/Checkpoint/Queue/Answers.antt =====
-- checkpoint-manager.ts: which promises an answered request and a failed one resolve.
use aws_durable_execution_sd.Common.{
  ℕ, ◌≡◌, ◌⊎◌, refl, sym, ◌∙◌, ap, subst, inl, inr, true, false, not, Option, none, some, List, [],
  ◌∷◌, ◌++◌, Text, Text-discrete, Option-cases, if-either, is_some, is_empty, present, arith,
  if◌then◌else◌,
}
use aws_durable_execution_sd.Common.Map
use aws_durable_execution_sd.Wire.{Operation, same_status}
use aws_durable_execution_sd.Termination.{checkpoint_failed}
use aws_durable_execution_sd.Checkpoint.{CheckpointManager}
use aws_durable_execution_sd.Checkpoint.Classify.{Thrown, classify_checkpoint_error, message_of}
use aws_durable_execution_sd.Checkpoint.Terminate.{terminate_with, check_and_terminate}
use aws_durable_execution_sd.Checkpoint.Terminate.Frame.{
  SameQueue, check_and_terminate-SameQueue, check_and_terminate-manager,
}
use aws_durable_execution_sd.Checkpoint.Queue.{
  CheckpointResponse, accept_response, update_step_data, update_one, resolve_waiting_operation,
  renewed, status_of, notify_queue_completion, finish_processing, resolve_batch, complete_success,
  complete_failure, clear_queue, batch_of, tickets,
}

append_nil : (xs : List ℕ) → xs ≡ xs ++ []
append_nil [] = refl
append_nil (x ∷ xs) = ap (λ ys. x ∷ ys) (append_nil xs)

-- The work is the same.
record SameWork (m n : CheckpointManager) : Type 0 where
  pub queue : n.queue ≡ m.queue
  pub in_flight : n.in_flight ≡ m.in_flight
  pub force : n.force_checkpoint_promises ≡ m.force_checkpoint_promises

-- More promises are resolved, after those that are already.
abbrev pub Extends : List ℕ → List ℕ → Type 0
Extends xs ys = (rest : List ℕ) × (ys ≡ xs ++ rest)

notified-Extends : (m : CheckpointManager) → Extends m.resolved (notify_queue_completion m).resolved
unfolding notify_queue_completion
notified-Extends m = elim (Option-cases m.queue_completion_resolver) [
  | inl e ↦ ([], rw e (append_nil m.resolved))
  | inr (t, e) ↦ (t ∷ [], rw e refl)
]

module _ (hash : Text → Text) where
  resolve_waiting_operation-SameWork :
      (id : Text) (m : CheckpointManager) → SameWork m (resolve_waiting_operation hash id m)
  unfolding resolve_waiting_operation
  resolve_waiting_operation-SameWork id m = ground arith

  update_one-SameWork : (op : Operation) (m : CheckpointManager) → SameWork m (update_one hash op m)
  unfolding update_one
  update_one-SameWork op m = go (present op.id)
    where
      stored : Text → CheckpointManager
      stored id = record m { step_data = Map.set Text-discrete m.step_data id op }

      go :
          (i : Option Text)
          → SameWork m (elim i as (λ x. CheckpointManager) [
            | none ↦ m
            | some id ↦
                if same_status (status_of hash m id) op.status
                then stored id
                else resolve_waiting_operation hash id (stored id)
          ])
      go none = record { queue = refl; in_flight = refl; force = refl }
      go (some id) =
          let s = resolve_waiting_operation-SameWork id (stored id) in
          if-either (SameWork m) (same_status (status_of hash m id) op.status) _ _
            (record { queue = refl; in_flight = refl; force = refl })
            (record { queue = s.queue; in_flight = s.in_flight; force = s.force })

  update_step_data-SameWork :
      (ops : List Operation) (m : CheckpointManager) → SameWork m (update_step_data hash ops m)
  unfolding update_step_data
  update_step_data-SameWork [] m = ground arith
  update_step_data-SameWork (op ∷ ops) m =
      let a = update_one-SameWork op m in
      let b = update_step_data-SameWork ops (update_one hash op m) in
      record {
        queue = b.queue ∙ a.queue;
        in_flight = b.in_flight ∙ a.in_flight;
        force = b.force ∙ a.force;
      }

  accept_response-SameWork :
      (r : CheckpointResponse) (m : CheckpointManager) → SameWork m (accept_response hash r m)
  unfolding accept_response
  accept_response-SameWork r m = elim (Option-cases r.operations) [
    | inl e ↦ rw e (record { queue = refl; in_flight = refl; force = refl })
    | inr (ops, e) ↦ rw e (
        let s = update_step_data-SameWork ops (renewed hash r m) in
        record { queue = s.queue; in_flight = s.in_flight; force = s.force })
  ]

  -- The round is over, and at most the promise that waits for the queue is resolved.
  abbrev Ends : CheckpointManager → CheckpointManager → Type 0
  Ends m n = Extends m.resolved n.resolved × (n.queue ≡ m.queue) × (n.is_processing ≡ false)

  finish_processing-Ends : (m : CheckpointManager) → Ends m (finish_processing hash m)
  unfolding finish_processing
  finish_processing-Ends m =
      if-either (Ends m) (not (is_empty m.queue)) _ _ (([], append_nil m.resolved), refl, refl)
        (if-either (Ends m) (is_some m.termination_timer) _ _ told (
          subst (Extends m.resolved) (sym same.resolved) told.0,
          same.queue ∙ told.1,
          same.is_processing ∙ told.2,
        ))
    where
      idle : CheckpointManager
      idle = record m { is_processing = false; in_flight = none }

      told : Ends m (notify_queue_completion idle)
      told = (
        notified-Extends idle,
        unfold notify_queue_completion in ground arith,
        unfold notify_queue_completion in ground arith,
      )

      same :
          SameQueue
            (notify_queue_completion idle)
            (check_and_terminate hash (notify_queue_completion idle))
      same = check_and_terminate-SameQueue hash (notify_queue_completion idle)

  -- An answered request resolves, after the promises of the operations whose status has changed, those
  -- of every update of its batch, in order, and then every force request, also one made while the
  -- request was on the way; the queue behind it is as it was, and the manager is free for a round.
  pub complete_success_lem :
      (r : CheckpointResponse) (m : CheckpointManager)
      → Extends
          ((accept_response hash r m).resolved
            ++ tickets hash (batch_of hash m)
            ++ m.force_checkpoint_promises)
          (complete_success hash r m).resolved
        × ((complete_success hash r m).queue ≡ m.queue)
        × ((complete_success hash r m).is_processing ≡ false)
  unfolding complete_success resolve_batch
  complete_success_lem r m =
      let s = accept_response-SameWork r m in
      let (a, b, c) = finish_processing-Ends (resolve_batch hash (accept_response hash r m)) in
      (subst (λ xs. Extends xs (complete_success hash r m).resolved) (batch s) a, b ∙ s.queue, c)
    where
      batch :
          SameWork m (accept_response hash r m)
          → (resolve_batch hash (accept_response hash r m)).resolved
            ≡ (accept_response hash r m).resolved
              ++ tickets hash (batch_of hash m)
              ++ m.force_checkpoint_promises
      batch s =
          ap
            (λ i.
              (accept_response hash r m).resolved
              ++ tickets hash (elim i [ none ↦ [] | some b ↦ b ])
              ++ (accept_response hash r m).force_checkpoint_promises)
            s.in_flight
          ∙ ap (λ f. (accept_response hash r m).resolved ++ tickets hash (batch_of hash m) ++ f)
              s.force

  abbrev Quiet : CheckpointManager → CheckpointManager → Type 0
  Quiet m n =
      (n.resolved ≡ m.resolved) × (n.queue ≡ m.queue) × (n.is_terminating ≡ m.is_terminating)

  -- With nobody waiting for the queue, the end of a round resolves nothing.
  finish_processing-Quiet :
      (m : CheckpointManager)
      → m.queue_completion_resolver ≡ none
      → Quiet m (finish_processing hash m)
  unfolding finish_processing
  finish_processing-Quiet m e =
      let idle =
        (let i : CheckpointManager = record m { is_processing = false; in_flight = none } in i) in
      let told : Quiet m (notify_queue_completion idle) =
        unfold notify_queue_completion in ground (arith, e) in
      let same = check_and_terminate-SameQueue hash (notify_queue_completion idle) in
      if-either (Quiet m) (not (is_empty m.queue)) _ _ (refl, refl, refl)
        (if-either (Quiet m) (is_some m.termination_timer) _ _ told (
          same.resolved ∙ told.0,
          same.queue ∙ told.1,
          (check_and_terminate-manager hash (notify_queue_completion idle)).1 ∙ told.2,
        ))

  -- A failed request, of a manager whose invocation has not ended, resolves no promise of an update or of
  -- a force request, only the one that waits for the queue, if there is one; it drops the queue and marks
  -- the manager as terminating.
  pub complete_failure_lem :
      (e : Thrown) (m : CheckpointManager)
      → m.termination_manager.is_terminated ≡ false
      → (((complete_failure hash e m).resolved ≡ m.resolved)
          ⊎ ((t : ℕ) × (m.queue_completion_resolver ≡ some t)
              × ((complete_failure hash e m).resolved ≡ m.resolved ++ t ∷ [])))
        × ((complete_failure hash e m).queue ≡ [])
        × ((complete_failure hash e m).is_terminating ≡ true)
  unfolding complete_failure terminate_with clear_queue notify_queue_completion
  complete_failure_lem e m h =
      let stopped =
        (let t : CheckpointManager =
            terminate_with checkpoint_failed (some (message_of (classify_checkpoint_error e)))
              (some (classify_checkpoint_error e)) (clear_queue m) in
          t) in
      let (a, b, c) = finish_processing-Quiet stopped (ground arith) in
      (
        elim (Option-cases m.queue_completion_resolver) [
          | inl n ↦ inl (a ∙ ground (arith, n))
          | inr (t, n) ↦ inr (t, n, a ∙ ground (arith, n))
        ],
        b ∙ ground arith,
        c ∙ ground (arith, h),
      )
