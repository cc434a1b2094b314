-- ===== src/Batch/Tests.antt =====
-- Examples of batches: three items, at most two at a time.
use aws_durable_execution_sd.Common.{
  ℕ, ◌≤◌, ◌≡◌, ◌≢◌, ◌↔◌, ◌⊎◌, ◌+◌, refl, Bool, true, false, none, some, List, [], ◌∷◌, Text, codes,
  arith, length, ltb, ◌*◌,
}
use aws_durable_execution_sd.Termination.{new_manager}
use aws_durable_execution_sd.Batch.{
  BatchItem, succeeded, failed, ConcurrentExecutionItem, CompletionConfig, ConcurrencyConfig,
  CompletionStatus, CompletionDecision, complete, CompletionOutcome, all_completed,
  failure_tolerance_exceeded, min_successful_reached, custom_completion_failed,
  custom_completion_succeeded, uncaused, child_context, thrown_value,
}
use aws_durable_execution_sd.Batch.Result.{
  batch_result, total_count, get_results, get_errors, started_items, status, throw_if_error,
}
use aws_durable_execution_sd.Batch.Reason.{
  Tally, should_continue, is_complete, get_completion_reason,
}
use aws_durable_execution_sd.Batch.Reason.Agreement.{reason_agrees}
use aws_durable_execution_sd.Batch.Result.Counts.{
  undefined_successes, batch_result_lem, throw_if_error_iff,
}
use aws_durable_execution_sd.Batch.Settings.{
  validate_settings, validate_settings_iff, IsValid, GivenConfig, ℤ, negsuc,
}
use aws_durable_execution_sd.Batch.Run.{
  Run, settle, execute_items_concurrently, Reached, begins, settles, fulfilled, rejected,
  is_on_the_way, settlements,
}
use aws_durable_execution_sd.Batch.Run.Invariant.{IsSound}
use aws_durable_execution_sd.Batch.Run.Progress.{Reached-IsSound}
use aws_durable_execution_sd.Batch.Run.Liveness.{Reached-resolves}
use aws_durable_execution_sd.Batch.Run.Closed.{settle-Reached, IsMonotone}

-- A test of whole percentages.
abbrev exceeds : ℕ → ℕ → ℕ → Bool
exceeds f n p = ltb (p * n) (f * 100)

exceeds-IsMonotone : IsMonotone exceeds
exceeds-IsMonotone f g n p l h = ground (arith, l, h)

abbrev item : ℕ → ConcurrentExecutionItem ℕ
item i = record { id = codes "item"; data_of = i; index = i; name = none }

abbrev items : List (ConcurrentExecutionItem ℕ)
items = item 0 ∷ item 1 ∷ item 2 ∷ []

-- Two successes are enough.
abbrev two_of_three : CompletionConfig ℕ
two_of_three = record {
  min_successful = some 2;
  tolerated_failure_count = none;
  tolerated_failure_percentage = some 50;
  should_complete = none;
}

abbrev fail_at_once : CompletionStatus → CompletionDecision
fail_at_once s = complete (some CompletionOutcome.failed)

abbrev custom : CompletionConfig ℕ
custom = record {
  min_successful = none;
  tolerated_failure_count = none;
  tolerated_failure_percentage = none;
  should_complete = some fail_at_once;
}

-- One failure is too many.
abbrev fail_fast : ConcurrencyConfig ℕ
fail_fast = record { max_concurrency = some 2; completion_config = none }

abbrev begun : Run ℕ
begun = execute_items_concurrently exceeds fail_fast items

abbrev failed_first : Run ℕ
failed_first = settle exceeds fail_fast items 0 (rejected (thrown_value (codes "no"))) begun

first_on_the_way : is_on_the_way exceeds fail_fast items begun 0 ≡ true
unfolding execute_items_concurrently should_continue is_complete
first_on_the_way = refl

second_on_the_way : is_on_the_way exceeds fail_fast items failed_first 1 ≡ true
unfolding execute_items_concurrently settle should_continue is_complete
second_on_the_way = refl

is_resolved : failed_first.resolved ≢ none
unfolding execute_items_concurrently settle should_continue is_complete
is_resolved = λ e. absurd (ground (arith, e))

abbrev failed_first_Reached : Reached exceeds fail_fast items failed_first
failed_first_Reached = settles 0 (rejected (thrown_value (codes "no"))) begins first_on_the_way

Reached-IsSound_example : IsSound exceeds fail_fast items failed_first
Reached-IsSound_example = Reached-IsSound exceeds fail_fast items failed_first failed_first_Reached

Reached-resolves_example :
    (settlements exceeds fail_fast items failed_first_Reached ≤ length items)
    × (failed_first.resolved ≡ none
        → (i : ℕ) × (is_on_the_way exceeds fail_fast items failed_first i ≡ true))
Reached-resolves_example =
    Reached-resolves exceeds fail_fast items failed_first failed_first_Reached

settle-Reached_example :
    ((settle exceeds fail_fast items 1 (fulfilled (some 7)) failed_first).started_items
      ≡ failed_first.started_items)
    × ((settle exceeds fail_fast items 1 (fulfilled (some 7)) failed_first).current_index
        ≡ failed_first.current_index)
settle-Reached_example =
    settle-Reached exceeds fail_fast items 1 (fulfilled (some 7)) failed_first tt exceeds-IsMonotone
      failed_first_Reached second_on_the_way is_resolved

abbrev enough_done : Tally
enough_done = record { success = 2; failure = 0; completed = 2; total = 3 }

abbrev seen : CompletionStatus
seen = record {
  success_count = 2;
  failure_count = 0;
  completed_count = 2;
  total_count = 3;
  items = [];
}

reason_agrees_example :
    ((get_completion_reason exceeds (some two_of_three) enough_done seen
        ≡ failure_tolerance_exceeded)
      ↔ (should_continue exceeds (some two_of_three) enough_done seen ≡ false))
    × ((get_completion_reason exceeds (some two_of_three) enough_done seen ≡ min_successful_reached)
        ↔ ((should_continue exceeds (some two_of_three) enough_done seen ≡ true)
            × (◌≢◌ {A = ℕ} 2 3)
            × (is_complete exceeds (some two_of_three) enough_done seen ≡ true)))
reason_agrees_example = reason_agrees exceeds (some two_of_three) enough_done seen refl

abbrev one_failed : List (BatchItem ℕ)
one_failed =
    record { result = some 5; error = none; index = 0; status = succeeded }
    ∷ record {
      result = none;
      error = some (uncaused child_context (codes "no"));
      index = 1;
      status = failed;
    }
    ∷ []

throw_if_error_iff_example :
    ((throw_if_error (batch_result one_failed custom_completion_succeeded) ≡ none) ↔ (
      ((batch_result one_failed custom_completion_succeeded).failure_count ≡ 0)
      × (custom_completion_succeeded ≢ custom_completion_failed)))
    × ((status (batch_result one_failed custom_completion_succeeded) ≡ succeeded) ↔ (
        (throw_if_error (batch_result one_failed custom_completion_succeeded) ≡ none)
        ⊎ (custom_completion_succeeded ≡ custom_completion_succeeded)))
throw_if_error_iff_example =
    throw_if_error_iff one_failed custom_completion_succeeded
      (refl, ((refl, (uncaused child_context (codes "no"), refl)), tt))

batch_result_lem_example :
    ((batch_result one_failed all_completed).success_count
        + (batch_result one_failed all_completed).failure_count
        + (batch_result one_failed all_completed).started_count
      ≡ total_count (batch_result one_failed all_completed))
    × (length (get_results (batch_result one_failed all_completed)) + undefined_successes one_failed
        ≡ (batch_result one_failed all_completed).success_count)
    × (length (get_errors (batch_result one_failed all_completed))
        ≡ (batch_result one_failed all_completed).failure_count)
    × (length (started_items (batch_result one_failed all_completed))
        ≡ (batch_result one_failed all_completed).started_count)
batch_result_lem_example =
    batch_result_lem one_failed all_completed
      (refl, ((refl, (uncaused child_context (codes "no"), refl)), tt))

abbrev decimal : ℤ → Text
decimal n = codes "-1"

abbrev negative_limit : GivenConfig ℕ
negative_limit = record { max_concurrency = some (negsuc 0); completion_config = none }

validate_settings_iff_example :
    (((validate_settings decimal negative_limit new_manager).0 ≡ true)
      ↔ IsValid decimal negative_limit)
    × ((validate_settings decimal negative_limit new_manager).0 ≡ true
        → (validate_settings decimal negative_limit new_manager).1 ≡ new_manager)
    × ((validate_settings decimal negative_limit new_manager).0 ≡ false
        → (validate_settings decimal negative_limit new_manager).1.is_terminated ≡ true)
validate_settings_iff_example = validate_settings_iff decimal negative_limit new_manager
