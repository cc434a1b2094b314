-- ===== src/Batch/Replay.antt =====
-- packages/aws-durable-execution-sdk-js/src/handlers/concurrent-execution-handler/
-- concurrent-execution-handler.ts: `executeItems` and `replayItems`, the replay of a batch whose
-- context has succeeded. `status_of` is the status of a checkpointed child, `run` what
-- `runInChildContext` gives for an item at a step of the parent context, `decimal` the digits of a
-- number, and `json_reason` the text under `completionReason` of a JSON object.
pub mod Views
pub mod Outcomes
pub mod Live
use aws_durable_execution_sd.Common.{
  ℕ, zero, suc, ◌+◌, Bool, true, false, Option, none, some, List, [], ◌∷◌, ◌++◌, map, Text, codes,
  Text-discrete, present, get_or, decide, ◌==◌, ◌||◌, length, keep, if◌then◌else◌,
}
use aws_durable_execution_sd.Wire.{OperationStatus, has_status}
use aws_durable_execution_sd.Batch.{
  BatchItem, BatchItemStatus, succeeded, failed, ConcurrentExecutionItem, CompletionItemStatus,
  CompletionConfig, CompletionStatus, CompletionReason, all_completed, min_successful_reached,
  failure_tolerance_exceeded, custom_completion_succeeded, custom_completion_failed,
  as_child_context_error,
}
use aws_durable_execution_sd.Batch.Result.{BatchResult, batch_result, is_succeeded, is_failed}
use aws_durable_execution_sd.Batch.Reason.{Tally, get_completion_reason}
use aws_durable_execution_sd.Batch.Run.{Settlement, fulfilled, rejected}

-- The keys of `VALID_COMPLETION_REASONS`.
abbrev pub reason_name : CompletionReason → Text
reason_name all_completed = codes "ALL_COMPLETED"
reason_name min_successful_reached = codes "MIN_SUCCESSFUL_REACHED"
reason_name failure_tolerance_exceeded = codes "FAILURE_TOLERANCE_EXCEEDED"
reason_name custom_completion_succeeded = codes "CUSTOM_COMPLETION_SUCCEEDED"
reason_name custom_completion_failed = codes "CUSTOM_COMPLETION_FAILED"

abbrev is_name : Text → CompletionReason → Bool
is_name t r = decide (Text-discrete t (reason_name r))

-- `hasOwnProperty` of the table, with the key as a reason.
unfoldable pub recognised_reason : Text → Option CompletionReason
recognised_reason t =
    if is_name t all_completed
    then some all_completed
    else if is_name t min_successful_reached
    then some min_successful_reached
    else if is_name t failure_tolerance_exceeded
    then some failure_tolerance_exceeded
    else if is_name t custom_completion_succeeded
    then some custom_completion_succeeded
    else if is_name t custom_completion_failed
    then some custom_completion_failed
    else none

recognised : Option Text → Option CompletionReason
unfolding recognised_reason
recognised none = none
recognised (some t) = recognised_reason t

parsed_reason : (Text → Option Text) → Option Text → Option CompletionReason
unfolding recognised
parsed_reason json_reason none = none
parsed_reason json_reason (some payload) = recognised (json_reason payload)

-- `if (summaryPayload)`: an absent or empty one records nothing.
unfoldable pub parse_recorded_completion_reason :
    (Text → Option Text) → Option Text → Option CompletionReason
unfolding parsed_reason
parse_recorded_completion_reason json_reason payload = parsed_reason json_reason (present payload)

abbrev pub is_terminal : Option OperationStatus → Bool
is_terminal s = has_status OperationStatus.succeeded s || has_status OperationStatus.failed s

module _ {R : Type 0} where
  abbrev pub replayed_item : ℕ → Settlement R → BatchItem R
  replayed_item index (fulfilled r) = record {
    result = r;
    error = none;
    index = index;
    status = succeeded;
  }
  replayed_item index (rejected e) = record {
    result = none;
    error = some (as_child_context_error e);
    index = index;
    status = failed;
  }

  -- `new Map` from the indices of the rebuilt items, where the last one of an index counts.
  abbrev status_at : List (BatchItem R) → ℕ → Option BatchItemStatus
  status_at [] i = none
  status_at (b ∷ bs) i = elim (status_at bs i) [
    | some s ↦ some s
    | none ↦ if b.index == i then some b.status else none
  ]

module _ {T R Percent : Type 0} (exceeds : ℕ → ℕ → Percent → Bool) (decimal : ℕ → Text)
    (status_of : Text → Option OperationStatus)
    (run : ℕ → Text → ConcurrentExecutionItem T → Settlement R) (parent : Text) where
  abbrev pub child_entity_id : ℕ → Text
  child_entity_id n = parent ++ codes "-" ++ decimal (n + 1)

  -- The loop, with `stepCounter` and the step counter of the parent context.
  unfoldable pub replay_loop : List (ConcurrentExecutionItem T) → ℕ → ℕ → List (BatchItem R)
  replay_loop [] step_counter context_step = []
  replay_loop (item ∷ items) step_counter context_step =
      let rest = replay_loop items (step_counter + 1) (context_step + 1) in
      if is_terminal (status_of (child_entity_id step_counter))
      then replayed_item item.index
          (run (context_step + 1) (get_or (present item.name) item.id) item)
        ∷ rest
      else rest

  abbrev item_statuses :
      List (ConcurrentExecutionItem T) → List (BatchItem R) → List CompletionItemStatus
  item_statuses items bs =
      map
        (λ item. record { index = item.index; name = item.name; status = status_at bs item.index })
        items

  inferred_reason :
      Option (CompletionConfig Percent)
      → List (ConcurrentExecutionItem T)
      → List (BatchItem R)
      → CompletionReason
  inferred_reason config items bs =
      let success = length (keep (λ b. is_succeeded b.status) bs) in
      let failure = length (keep (λ b. is_failed b.status) bs) in
      get_completion_reason exceeds config
        (record {
          success = success;
          failure = failure;
          completed = success + failure;
          total = length items;
        })
        (record {
          success_count = success;
          failure_count = failure;
          completed_count = success + failure;
          total_count = length items;
          items = item_statuses items bs;
        })

  unfoldable pub replay_items :
      List (ConcurrentExecutionItem T)
      → Option (CompletionConfig Percent)
      → ℕ
      → Option CompletionReason
      → BatchResult R
  unfolding replay_loop inferred_reason batch_result
  replay_items items config context_step recorded =
      let bs = replay_loop items 0 context_step in
      batch_result bs (get_or recorded (inferred_reason config items bs))

module _ {T R Percent : Type 0} (exceeds : ℕ → ℕ → Percent → Bool) (decimal : ℕ → Text)
    (status_of : Text → Option OperationStatus)
    (run : ℕ → Text → ConcurrentExecutionItem T → Settlement R)
    (json_reason : Text → Option Text) where
  -- `executeItems` in the mode `ReplaySucceededContext`, with the summary that the context's own
  -- checkpoint carries.
  unfoldable pub execute_replayed :
      Text
      → List (ConcurrentExecutionItem T)
      → Option (CompletionConfig Percent)
      → ℕ
      → Option Text
      → BatchResult R
  unfolding replay_items parse_recorded_completion_reason
  execute_replayed entity_id items config context_step summary =
      replay_items exceeds decimal status_of run entity_id items config context_step
        (parse_recorded_completion_reason json_reason summary)
