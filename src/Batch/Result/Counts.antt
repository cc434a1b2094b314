-- ===== src/Batch/Result/Counts.antt =====
-- batch-result.ts: what the counts, the views, the status and `throwIfError` of a batch say together.
use aws_durable_execution_sd.Common.{
  ℕ, not, ◌+◌, ◌≡◌, ◌≢◌, ◌↔◌, ◌⊎◌, refl, ◌&&◌, none, List, [], ◌∷◌, length, keep, is_some, All,
  arith,
}
use aws_durable_execution_sd.Batch.{
  BatchItem, succeeded, CompletionReason, custom_completion_succeeded, custom_completion_failed,
}
use aws_durable_execution_sd.Batch.Result.{
  batch_result, is_succeeded, is_failed, is_started, results_of, errors_of, first_error,
  total_count, succeeded_items, failed_items, started_items, get_results, get_errors, has_failure,
  status, throw_if_error,
}
use aws_durable_execution_sd.Batch.Run.Slots.{IsItem, count, count_statuses_lem}

module _ {R : Type 0} where
  statuses_total :
      (bs : List (BatchItem R))
      → count (λ b. is_succeeded b.status) bs
          + count (λ b. is_failed b.status) bs
          + count (λ b. is_started b.status) bs
        ≡ length bs
  statuses_total [] = omega arith
  statuses_total (b ∷ bs) = ground (arith, statuses_total bs)

  -- The items that have succeeded with an undefined result.
  abbrev pub undefined_successes : List (BatchItem R) → ℕ
  undefined_successes bs = count (λ b. is_succeeded b.status && not (is_some b.result)) bs

  results_counted :
      (bs : List (BatchItem R))
      → length (results_of (keep (λ b. is_succeeded b.status && is_some b.result) bs))
          + undefined_successes bs
        ≡ count (λ b. is_succeeded b.status) bs
  unfolding results_of
  results_counted [] = refl
  results_counted (b ∷ bs) = ground (arith, results_counted bs)

  errors_counted :
      (bs : List (BatchItem R))
      → All IsItem bs
      → length (errors_of (keep (λ b. is_failed b.status && is_some b.error) bs))
        ≡ count (λ b. is_failed b.status) bs
  unfolding errors_of
  errors_counted [] h = refl
  errors_counted (b ∷ bs) (i, h) = ground (arith, errors_counted bs h, i)

  started_counted :
      (bs : List (BatchItem R))
      → length (keep (λ b. is_started b.status) bs) ≡ count (λ b. is_started b.status) bs
  started_counted [] = refl
  started_counted (b ∷ bs) = ground (arith, started_counted bs)

  -- The three counts add up to the number of items. Those of the failed and the started items are the
  -- lengths of their views, where every item has the fields of its status; that of the succeeded items
  -- is the number of results and of the items with an undefined result, which `succeeded()` drops.
  pub batch_result_lem :
      (all : List (BatchItem R)) (reason : CompletionReason)
      → All IsItem all
      → let b = batch_result all reason in
        (b.success_count + b.failure_count + b.started_count ≡ total_count b)
        × (length (get_results b) + undefined_successes all ≡ b.success_count)
        × (length (get_errors b) ≡ b.failure_count)
        × (length (started_items b) ≡ b.started_count)
  unfolding batch_result total_count get_results get_errors started_items succeeded_items
      failed_items
  batch_result_lem all reason h =
      let e = count_statuses_lem all 0 0 0 in
      (
        ground (arith, e, statuses_total all),
        ground (arith, e, results_counted all),
        ground (arith, e, errors_counted all h),
        ground (arith, e, started_counted all),
      )

  no_error :
      (bs : List (BatchItem R))
      → All IsItem bs
      → (first_error bs ≡ none) ↔ (count (λ b. is_failed b.status) bs ≡ 0)
  unfolding first_error
  no_error [] h = (λ _. refl, λ _. refl)
  no_error (b ∷ bs) (i, h) = ground (arith, no_error bs h, i)

  -- Where every item has the fields of its status, `throwIfError` throws nothing just when no item has
  -- failed and the batch was not completed as failed by a custom decision; the status is a success in
  -- that case, and also when a custom decision says so, whatever items have failed.
  pub throw_if_error_iff :
      (all : List (BatchItem R)) (reason : CompletionReason)
      → All IsItem all
      → let b = batch_result all reason in
        ((throw_if_error b ≡ none) ↔ ((b.failure_count ≡ 0) × (reason ≢ custom_completion_failed)))
        × ((status b ≡ succeeded)
            ↔ ((throw_if_error b ≡ none) ⊎ (reason ≡ custom_completion_succeeded)))
  unfolding batch_result throw_if_error status has_failure
  throw_if_error_iff all reason h = ground (arith, no_error all h, count_statuses_lem all 0 0 0)
