-- ===== src/Batch/Result.antt =====
-- packages/aws-durable-execution-sdk-js/src/handlers/concurrent-execution-handler/batch-result.ts:
-- the class `BatchResultImpl`. The memo of a filtered view holds the value that the view has
-- anyway, as `all` does not change, and is left out.
pub mod Counts
use aws_durable_execution_sd.Common.{
  ℕ, zero, suc, ◌+◌, Bool, true, false, ◌&&◌, Option, none, some, List, [], ◌∷◌, length, keep,
  is_some, ltb, if◌then◌else◌,
}
use aws_durable_execution_sd.Batch.{
  BatchItem, BatchItemStatus, succeeded, failed, started, CompletionReason,
  custom_completion_succeeded, custom_completion_failed, all_completed, JsError,
}

-- What `throwIfError` throws: the error of an item, or a `BatchCompletionError`.
pub data BatchFault : Type 0 where
  item_error : JsError → BatchFault
  batch_completion_error : CompletionReason → BatchFault

abbrev pub is_succeeded : BatchItemStatus → Bool
is_succeeded succeeded = true
is_succeeded _ = false

abbrev pub is_failed : BatchItemStatus → Bool
is_failed failed = true
is_failed _ = false

abbrev pub is_started : BatchItemStatus → Bool
is_started started = true
is_started _ = false

module _ {R : Type 0} where
  -- The loop of the constructor, which counts all three in one pass.
  unfoldable pub count_statuses : List (BatchItem R) → ℕ → ℕ → ℕ → ℕ × ℕ × ℕ
  count_statuses [] success failure in_flight = (success, failure, in_flight)
  count_statuses (item ∷ all) success failure in_flight = elim (item.status) [
    | succeeded ↦ count_statuses all (success + 1) failure in_flight
    | failed ↦ count_statuses all success (failure + 1) in_flight
    | started ↦ count_statuses all success failure (in_flight + 1)
  ]

  -- The values that `getResults` and `getErrors` map the views to.
  unfoldable pub results_of : List (BatchItem R) → List R
  results_of [] = []
  results_of (item ∷ all) = elim item.result [ none ↦ results_of all | some r ↦ r ∷ results_of all ]

  unfoldable pub errors_of : List (BatchItem R) → List JsError
  errors_of [] = []
  errors_of (item ∷ all) = elim item.error [ none ↦ errors_of all | some e ↦ e ∷ errors_of all ]

  -- `this.all.find((item) => item.status === BatchItemStatus.FAILED)?.error`
  unfoldable pub first_error : List (BatchItem R) → Option JsError
  first_error [] = none
  first_error (item ∷ all) = if is_failed item.status then item.error else first_error all

pub record BatchResult (R : Type 0) : Type 0 where
  pub all : List (BatchItem R)
  pub completion_reason : CompletionReason
  pub success_count : ℕ
  pub failure_count : ℕ
  pub started_count : ℕ

module _ {R : Type 0} where
  unfoldable pub batch_result : List (BatchItem R) → CompletionReason → BatchResult R
  unfolding count_statuses
  batch_result all reason =
      let (success, failure, in_flight) = count_statuses all 0 0 0 in
      record {
        all = all;
        completion_reason = reason;
        success_count = success;
        failure_count = failure;
        started_count = in_flight;
      }

  unfoldable pub total_count : BatchResult R → ℕ
  total_count b = length b.all

  unfoldable pub succeeded_items : BatchResult R → List (BatchItem R)
  succeeded_items b = keep (λ item. is_succeeded item.status && is_some item.result) b.all

  unfoldable pub failed_items : BatchResult R → List (BatchItem R)
  failed_items b = keep (λ item. is_failed item.status && is_some item.error) b.all

  unfoldable pub started_items : BatchResult R → List (BatchItem R)
  started_items b = keep (λ item. is_started item.status) b.all

  unfoldable pub get_results : BatchResult R → List R
  unfolding succeeded_items results_of
  get_results b = results_of (succeeded_items b)

  unfoldable pub get_errors : BatchResult R → List JsError
  unfolding failed_items errors_of
  get_errors b = errors_of (failed_items b)

  unfoldable pub has_failure : BatchResult R → Bool
  has_failure b = ltb 0 b.failure_count

  unfoldable pub status : BatchResult R → BatchItemStatus
  unfolding has_failure
  status b = elim b.completion_reason [
    | custom_completion_failed ↦ failed
    | custom_completion_succeeded ↦ succeeded
    | _ ↦ if has_failure b then failed else succeeded
  ]

  unfoldable pub throw_if_error : BatchResult R → Option BatchFault
  unfolding status first_error
  throw_if_error b = elim (first_error b.all) [
    | some e ↦ some (item_error e)
    | none ↦
        if is_failed (status b) then some (batch_completion_error b.completion_reason) else none
  ]
