-- ===== src/Checkpoint/Queue.antt =====
-- checkpoint-manager.ts: the queue of checkpoints. `processQueue` is split at its one `await`, into
-- `process_queue`, which sends a batch, and `complete_success` and `complete_failure`, by which it
-- goes on when the request has been answered. The plugin hook between the two is not modelled, nor
-- is the log. `hash` is the digest of `hashId`, and `wire_size` the number of bytes of the JSON text
-- of a checkpoint, which the platform computes.
pub mod Batches
pub mod Answers
use aws_durable_execution_sd.Common.{
  ℕ, suc, ◌+◌, ◌-◌, ◌≤◌, ◌<◌, ◌≡◌, refl, Bool, true, false, not, ◌&&◌, ◌||◌, Option, none, some,
  List, [], ◌∷◌, ◌++◌, map, Text, Text-discrete, any, is_empty, contains, length, if◌then◌else◌,
  is_some, get_or, present, ltb, leb, arith,
}
use aws_durable_execution_sd.Common.Map
use aws_durable_execution_sd.Wire.{
  OperationType, step, OperationAction, start, OperationStatus, Operation, OperationUpdate,
  same_status,
}
use aws_durable_execution_sd.Termination.{checkpoint_failed}
use aws_durable_execution_sd.Checkpoint.Ids.{has_finished_ancestor}
use aws_durable_execution_sd.Checkpoint.Terminate.{terminate_with, check_and_terminate}
use aws_durable_execution_sd.Checkpoint.Classify.{Thrown, classify_checkpoint_error, message_of}
use aws_durable_execution_sd.Checkpoint.{
  OperationInfo, QueuedCheckpoint, CheckpointError, CheckpointRequest, CheckpointManager,
  max_payload_size, max_items_in_batch,
}

-- What a call hands to its caller: a promise that never settles, one that is resolved already, or
-- one to be resolved under its ticket.
pub data Promise : Type 0 where
  never : Promise
  settled : Promise
  waiting : ℕ → Promise

-- A `CheckpointDurableExecutionResponse`, its operations normalized.
pub record CheckpointResponse : Type 0 where
  pub checkpoint_token : Option Text
  pub operations : Option (List Operation)

abbrev pub schedule_unless_processing : CheckpointManager → ℕ
schedule_unless_processing m = if m.is_processing then m.scheduled else m.scheduled + 1

unfoldable pub force_checkpoint : CheckpointManager → Promise × CheckpointManager
force_checkpoint m = if m.is_terminating then (never, m) else (
  waiting m.next_ticket,
  record m {
    force_checkpoint_promises = m.force_checkpoint_promises ++ m.next_ticket ∷ [];
    next_ticket = m.next_ticket + 1;
    scheduled = schedule_unless_processing m;
  },
)

unfoldable pub checkpoint :
    (Text → OperationUpdate → ℕ)
    → Text
    → OperationUpdate
    → CheckpointManager
    → Promise × CheckpointManager
checkpoint wire_size step_id update m =
    if m.is_terminating || has_finished_ancestor m.finished_ancestors step_id then (never, m) else (
      waiting m.next_ticket,
      record m {
        queue =
            m.queue
            ++ record {
              step_id = step_id;
              update = update;
              size_bytes = wire_size step_id update;
              ticket = m.next_ticket;
            }
              ∷ [];
        next_ticket = m.next_ticket + 1;
        scheduled = schedule_unless_processing m;
      },
    )

unfoldable pub set_terminating : CheckpointManager → CheckpointManager
set_terminating m = record m { is_terminating = true }

-- The set of finished ancestors is a list, which may hold an id twice.
unfoldable pub mark_ancestor_finished : Text → CheckpointManager → CheckpointManager
mark_ancestor_finished step_id m = record m {
  finished_ancestors = m.finished_ancestors ++ step_id ∷ [];
}

unfoldable pub notify_queue_completion : CheckpointManager → CheckpointManager
notify_queue_completion m = elim m.queue_completion_resolver [
  | none ↦ m
  | some t ↦ record m { queue_completion_resolver = none; resolved = m.resolved ++ t ∷ [] }
]

unfoldable pub wait_for_queue_completion : CheckpointManager → Promise × CheckpointManager
wait_for_queue_completion m = if is_empty m.queue && not m.is_processing then (settled, m) else (
  waiting m.next_ticket,
  record m { queue_completion_resolver = some m.next_ticket; next_ticket = m.next_ticket + 1 },
)

unfoldable pub clear_queue : CheckpointManager → CheckpointManager
unfolding notify_queue_completion
clear_queue m = notify_queue_completion (record m { queue = []; force_checkpoint_promises = [] })

-- `getQueueStatus`: the length of the queue, and the flag.
unfoldable pub get_queue_status : CheckpointManager → ℕ × Bool
get_queue_status m = (length m.queue, m.is_processing)

-- The loop that fills a batch: the items taken, and the items left. `n` items are in the batch.
unfoldable pub take_batch :
    ℕ → ℕ → List QueuedCheckpoint → List QueuedCheckpoint × List QueuedCheckpoint
take_batch size n [] = ([], [])
take_batch size n (x ∷ q) =
    let rest = take_batch (size + x.size_bytes) (n + 1) q in
    if (ltb max_payload_size (size + x.size_bytes) || leb max_items_in_batch n) && ltb 0 n
    then ([], x ∷ q)
    else (x ∷ rest.0, rest.1)

abbrev pub base_size : CheckpointManager → ℕ
base_size m = length m.current_task_token + 100

module _ (hash : Text → Text) where
  abbrev pub hash_parent : Option Text → Option Text
  hash_parent p = elim (present p) [ none ↦ p | some q ↦ some (hash q) ]

  -- `data.Type || "STEP"`, `data.Action || "START"`, then the data, then the hashed ids.
  unfoldable pub to_update : QueuedCheckpoint → OperationUpdate
  to_update item = record (item.update) {
    type = some (get_or item.update.type step);
    action = some (get_or item.update.action start);
    id = some (hash item.step_id);
    parent_id = hash_parent item.update.parent_id;
  }

  unfoldable pub request_of : CheckpointManager → List QueuedCheckpoint → CheckpointRequest
  unfolding to_update
  request_of m batch = record {
    checkpoint_token = m.current_task_token;
    updates = map to_update batch;
  }

  unfoldable pub process_queue : CheckpointManager → CheckpointManager
  unfolding take_batch request_of
  process_queue m =
      if m.is_processing || (is_empty m.queue && is_empty m.force_checkpoint_promises)
      then m
      else let (batch, rest) = take_batch (base_size m) 0 m.queue in
        record m {
          is_processing = true;
          queue = rest;
          in_flight = some batch;
          sent = m.sent ++ request_of m batch ∷ [];
        }

  -- The `setImmediate` callback.
  unfoldable pub on_immediate : CheckpointManager → CheckpointManager
  unfolding process_queue
  on_immediate m = process_queue (record m { scheduled = m.scheduled - 1 })

  abbrev pub resolve_operation : Text → OperationInfo → CheckpointManager → CheckpointManager
  resolve_operation step_id op m = elim op.resolver [
    | none ↦ m
    | some t ↦ record m {
      operations =
          Map.set Text-discrete m.operations step_id (record op { resolver = none; timer = none });
      resolved = m.resolved ++ t ∷ [];
    }
  ]

  unfoldable pub resolve_waiting_operation : Text → CheckpointManager → CheckpointManager
  resolve_waiting_operation hashed m = elim (Map.get Text-discrete m.hashed_id_index hashed) [
    | none ↦ m
    | some step_id ↦ elim (Map.get Text-discrete m.operations step_id) [
      | none ↦ m
      | some op ↦ resolve_operation step_id op m
    ]
  ]

  abbrev pub status_of : CheckpointManager → Text → Option OperationStatus
  status_of m id = elim (Map.get Text-discrete m.step_data id) [ none ↦ none | some op ↦ op.status ]

  unfoldable pub update_one : Operation → CheckpointManager → CheckpointManager
  unfolding resolve_waiting_operation
  update_one op m = elim (present op.id) [
    | none ↦ m
    | some id ↦
        let stored = record m { step_data = Map.set Text-discrete m.step_data id op } in
        if same_status (status_of m id) op.status
        then stored
        else resolve_waiting_operation id stored
  ]

  unfoldable pub update_step_data : List Operation → CheckpointManager → CheckpointManager
  unfolding update_one
  update_step_data [] m = m
  update_step_data (op ∷ ops) m = update_step_data ops (update_one op m)

  -- The `finally` block.
  unfoldable pub finish_processing : CheckpointManager → CheckpointManager
  unfolding notify_queue_completion
  finish_processing m =
      let idle = record m { is_processing = false; in_flight = none } in
      if not (is_empty m.queue)
      then record idle { scheduled = m.scheduled + 1 }
      else let notified = notify_queue_completion idle in
        if is_some m.termination_timer then notified else check_and_terminate hash notified

  abbrev pub batch_of : CheckpointManager → List QueuedCheckpoint
  batch_of m = elim m.in_flight [ none ↦ [] | some batch ↦ batch ]

  abbrev pub tickets : List QueuedCheckpoint → List ℕ
  tickets = map (λ x. x.ticket)

  -- The token of the response, if it has one.
  abbrev pub renewed : CheckpointResponse → CheckpointManager → CheckpointManager
  renewed r m = record m {
    current_task_token = elim (present r.checkpoint_token) [
      | none ↦ m.current_task_token
      | some t ↦ t
    ];
  }

  -- `processBatch` with its answer, and the rest of the `try` block.
  unfoldable pub accept_response : CheckpointResponse → CheckpointManager → CheckpointManager
  unfolding update_step_data
  accept_response r m = elim r.operations [
    | none ↦ renewed r m
    | some ops ↦ update_step_data ops (renewed r m)
  ]

  unfoldable pub resolve_batch : CheckpointManager → CheckpointManager
  resolve_batch m = record m {
    resolved = m.resolved ++ tickets (batch_of m) ++ m.force_checkpoint_promises;
    force_checkpoint_promises = [];
  }

  -- One step from the answer to the end of the round; other code that runs while `updateStepData` is
  -- awaited, before the promises are resolved, is left out.
  unfoldable pub complete_success : CheckpointResponse → CheckpointManager → CheckpointManager
  unfolding accept_response resolve_batch finish_processing
  complete_success r m = finish_processing (resolve_batch (accept_response r m))

  -- The `catch` block.
  unfoldable pub complete_failure : Thrown → CheckpointManager → CheckpointManager
  unfolding clear_queue terminate_with finish_processing
  complete_failure e m =
      let error = classify_checkpoint_error e in
      finish_processing
        (terminate_with checkpoint_failed (some (message_of error)) (some error) (clear_queue m))
