-- ===== src/Batch/ReplayTests.antt =====
-- Examples of replayed and restored batches.
use mathlib.Core.Bool.{decide}
use aws_durable_execution_sd.Common.{
  ℕ, ◌≡◌, refl, inl, inr, false, Option, none, some, List, [], ◌∷◌, Text, codes, Text-discrete,
  arith, Bool, if◌then◌else◌,
}
use aws_durable_execution_sd.Wire.{OperationStatus}
use aws_durable_execution_sd.Batch.{
  failed, started, ConcurrentExecutionItem, ConcurrencyConfig, all_completed,
  failure_tolerance_exceeded, thrown_value, as_child_context_error,
}
use aws_durable_execution_sd.Batch.Result.{BatchResult, batch_result}
use aws_durable_execution_sd.Batch.Run.{Run, Settlement, rejected, execute_items_concurrently}
use aws_durable_execution_sd.Batch.Replay.{reason_name}
use aws_durable_execution_sd.Batch.Serial.{
  step_error, child_context_error, plain, durable, uncaused, caused, known_kind, LiveItem,
  serialize_batch, restore_batch_result, serialize_batch_error, reconstruct_batch_error,
}
use aws_durable_execution_sd.Batch.Serial.RoundTrip.{
  AllRestored, restore_batch_result-serialize_batch, chain,
}

abbrev item : ℕ → ConcurrentExecutionItem ℕ
item i = record { id = codes "item"; data_of = i; index = i; name = none }

abbrev decimal : ℕ → Text
decimal n = n ∷ []

abbrev exceeds : ℕ → ℕ → ℕ → Bool
exceeds f n p = false

-- Only the first child has ended.
abbrev status_of : Text → Option OperationStatus
status_of id =
    if decide (Text-discrete id (b'p' ∷ b'-' ∷ 1 ∷ []))
    then some OperationStatus.failed
    else some OperationStatus.started

abbrev no : Settlement ℕ
no = rejected (thrown_value (codes "no"))

abbrev run : ℕ → Text → ConcurrentExecutionItem ℕ → Settlement ℕ
run step name it = no

abbrev json_reason : Text → Option Text
json_reason summary = some (reason_name failure_tolerance_exceeded)

abbrev items : List (ConcurrentExecutionItem ℕ)
items = item 0 ∷ item 1 ∷ []

-- Both items are started, and the first failure is one too many.
abbrev no_settings : ConcurrencyConfig ℕ
no_settings = record { max_concurrency = none; completion_config = none }

abbrev begun : Run ℕ
begun = execute_items_concurrently exceeds no_settings items

abbrev live : BatchResult ℕ
live =
    batch_result
      (record {
        result = none;
        error = some (as_child_context_error (thrown_value (codes "no")));
        index = 0;
        status = failed;
      }
        ∷ record { result = none; error = none; index = 1; status = started }
        ∷ [])
      failure_tolerance_exceeded

-- An item that failed with a child context's error, caused by a plain one.
abbrev failed_item : LiveItem ℕ
failed_item = record {
  result = none;
  error = some (
      caused (durable child_context_error none) (codes "no")
        (uncaused (plain (codes "TypeError")) (codes "bad")));
  index = 0;
  status = failed;
}

-- JSON keeps a number.
abbrev kept_number : ℕ → Option ℕ
kept_number n = some n

abbrev same_number : ℕ → ℕ
same_number n = n

restore_batch_result-serialize_batch_example :
    AllRestored kept_number same_number
      (failed_item ∷ [])
      (restore_batch_result same_number
        (some (serialize_batch kept_number (failed_item ∷ []) all_completed))).0
    × ((restore_batch_result same_number
          (some (serialize_batch kept_number (failed_item ∷ []) all_completed))).1
        ≡ all_completed)
unfolding known_kind Text-discrete decide
restore_batch_result-serialize_batch_example =
    restore_batch_result-serialize_batch kept_number same_number (failed_item ∷ []) all_completed (
      ((λ e. ground (arith, e), inr (λ e. ground (arith, e))), (λ e. ground (arith, e), inl refl)),
      tt,
    )

-- The chain of causes of an error that is restored twice grows twice.
restored_twice :
    chain (
      reconstruct_batch_error (
        serialize_batch_error (
          reconstruct_batch_error
            (serialize_batch_error (uncaused (durable step_error none) (codes "x"))))))
    ≡ (codes "StepError", codes "x")
      ∷ (codes "StepError", codes "x")
      ∷ (codes "StepError", codes "x")
      ∷ []
unfolding serialize_batch_error reconstruct_batch_error known_kind Text-discrete decide
restored_twice = refl
