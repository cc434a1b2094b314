-- ===== src/Batch/Replay/Views.antt =====
-- concurrent-execution-handler.ts: a replayed batch against the live one.
use aws_durable_execution_sd.Common.{
  ℕ, ◌+◌, ◌≡◌, refl, Bool, true, false, not, ◌&&◌, Option, none, some, List, [], ◌∷◌, Text,
  Text-discrete, present, get_or, keep, is_some, ap, subst, arith,
}
use mathlib.Core.Bool.{decide}
use aws_durable_execution_sd.Wire.{OperationStatus}
use aws_durable_execution_sd.Batch.{
  BatchItem, started, ConcurrentExecutionItem, CompletionConfig, CompletionReason, all_completed,
  min_successful_reached, failure_tolerance_exceeded, custom_completion_succeeded,
  custom_completion_failed,
}
use aws_durable_execution_sd.Batch.Result.{
  BatchResult, batch_result, is_succeeded, is_failed, is_started, first_error, get_results,
  get_errors, succeeded_items, failed_items, status, has_failure, throw_if_error, results_of,
  errors_of,
}
use aws_durable_execution_sd.Batch.Run.{Settlement, dense}
use aws_durable_execution_sd.Batch.Run.Slots.{count, count_statuses_lem}
use aws_durable_execution_sd.Batch.Replay.{
  reason_name, recognised_reason, parse_recorded_completion_reason, is_terminal, replayed_item,
  child_entity_id, replay_loop, replay_items, execute_replayed,
}

module _ {R : Type 0} where
  -- The items that have ended, of a batch that may have items in flight.
  abbrev pub settled : List (BatchItem R) → List (BatchItem R)
  settled bs = keep (λ b. not (is_started b.status)) bs

  succeeded_settled :
      (bs : List (BatchItem R))
      → keep (λ b. is_succeeded b.status && is_some b.result) (settled bs)
        ≡ keep (λ b. is_succeeded b.status && is_some b.result) bs
  succeeded_settled [] = refl
  succeeded_settled (b ∷ bs) = ground (arith, succeeded_settled bs)

  failed_settled :
      (bs : List (BatchItem R))
      → keep (λ b. is_failed b.status && is_some b.error) (settled bs)
        ≡ keep (λ b. is_failed b.status && is_some b.error) bs
  failed_settled [] = refl
  failed_settled (b ∷ bs) = ground (arith, failed_settled bs)

  counts_settled :
      (bs : List (BatchItem R))
      → (count (λ b. is_succeeded b.status) (settled bs) ≡ count (λ b. is_succeeded b.status) bs)
        × (count (λ b. is_failed b.status) (settled bs) ≡ count (λ b. is_failed b.status) bs)
        × (count (λ b. is_started b.status) (settled bs) ≡ 0)
  counts_settled [] = (refl, refl, refl)
  counts_settled (b ∷ bs) = ground (arith, counts_settled bs)

  first_error-settled : (bs : List (BatchItem R)) → first_error (settled bs) ≡ first_error bs
  unfolding first_error
  first_error-settled [] = refl
  first_error-settled (b ∷ bs) = ground (arith, first_error-settled bs)

  -- The replay gives the values, errors, counts, status and failure of the live batch, and none of
  -- its items in flight.
  abbrev pub Replays : BatchResult R → BatchResult R → Type 0
  Replays replay live =
      (replay.all ≡ settled live.all)
      × (get_results replay ≡ get_results live)
      × (get_errors replay ≡ get_errors live)
      × (replay.success_count ≡ live.success_count)
      × (replay.failure_count ≡ live.failure_count)
      × (replay.started_count ≡ 0)
      × (replay.completion_reason ≡ live.completion_reason)
      × (status replay ≡ status live)
      × (throw_if_error replay ≡ throw_if_error live)

  settled-Replays :
      (bs : List (BatchItem R)) (reason : CompletionReason)
      → Replays (batch_result (settled bs) reason) (batch_result bs reason)
  unfolding batch_result get_results get_errors succeeded_items failed_items has_failure status
      throw_if_error
  settled-Replays bs reason =
      let live = count_statuses_lem bs 0 0 0 in
      let replay = count_statuses_lem (settled bs) 0 0 0 in
      let counts = counts_settled bs in
      (
        refl,
        ap results_of (succeeded_settled bs),
        ap errors_of (failed_settled bs),
        ground (arith, live, replay, counts),
        ground (arith, live, replay, counts),
        ground (arith, live, replay, counts),
        refl,
        ground (arith, live, replay, counts),
        ground (arith, live, replay, counts, first_error-settled bs),
      )

recognised_reason_name : (r : CompletionReason) → recognised_reason (reason_name r) ≡ some r
unfolding recognised_reason Text-discrete decide
recognised_reason_name all_completed = refl
recognised_reason_name min_successful_reached = refl
recognised_reason_name failure_tolerance_exceeded = refl
recognised_reason_name custom_completion_succeeded = refl
recognised_reason_name custom_completion_failed = refl

module _ {T R Percent : Type 0} (exceeds : ℕ → ℕ → Percent → Bool) (decimal : ℕ → Text)
    (status_of : Text → Option OperationStatus)
    (run : ℕ → Text → ConcurrentExecutionItem T → Settlement R) (parent : Text) where
  abbrev pub terminal_at : ℕ → Bool
  terminal_at k = is_terminal (status_of (child_entity_id exceeds decimal status_of run parent k))

  -- An item that has not ended has no terminal checkpoint. One that has ended has, and
  -- `runInChildContext` gives at its step what it gave live.
  abbrev pub IsRecorded : ℕ → ConcurrentExecutionItem T → Option (BatchItem R) → Type 0
  IsRecorded k item none = terminal_at k ≡ false
  IsRecorded k item (some b) = elim b.status [
    | started ↦ terminal_at k ≡ false
    | _ ↦
        (terminal_at k ≡ true)
        × (replayed_item item.index (run (k + 1) (get_or (present item.name) item.id) item) ≡ b)
  ]

  abbrev pub AreRecorded :
      ℕ → List (ConcurrentExecutionItem T) → List (Option (BatchItem R)) → Type 0
  AreRecorded k [] [] = Unit {0}
  AreRecorded k (item ∷ items) (slot ∷ slots) =
      IsRecorded k item slot × AreRecorded (k + 1) items slots
  AreRecorded k _ _ = ⊥

  replay_loop-settled :
      (items : List (ConcurrentExecutionItem T)) (slots : List (Option (BatchItem R))) (k : ℕ)
      → AreRecorded k items slots
      → replay_loop exceeds decimal status_of run parent items k k ≡ settled (dense slots)
  unfolding replay_loop dense
  replay_loop-settled [] [] k h = refl
  replay_loop-settled [] (slot ∷ slots) k h = absurd h
  replay_loop-settled (item ∷ items) [] k h = absurd h
  replay_loop-settled (item ∷ items) (none ∷ slots) k (h, hs) =
      ground (arith, replay_loop-settled items slots (k + 1) hs)
  replay_loop-settled (item ∷ items) (some b ∷ slots) k (h, hs) =
      ground (arith, replay_loop-settled items slots (k + 1) hs)

  pub recorded-Replays :
      (json_reason : Text → Option Text) (items : List (ConcurrentExecutionItem T))
      → (slots : List (Option (BatchItem R))) (config : Option (CompletionConfig Percent))
      → (summary : Text) (reason : CompletionReason) → AreRecorded 0 items slots
      → present (some summary) ≡ some summary
      → json_reason summary ≡ some (reason_name reason)
      → Replays
          (execute_replayed exceeds decimal status_of run json_reason parent items config 0
            (some summary))
          (batch_result (dense slots) reason)
  unfolding execute_replayed replay_items parse_recorded_completion_reason
  recorded-Replays json_reason items slots config summary reason h p j =
      subst (λ x. Replays x (batch_result (dense slots) reason))
        (simp (p, j, recognised_reason_name, replay_loop-settled items slots 0 h))
        (settled-Replays (dense slots) reason)
