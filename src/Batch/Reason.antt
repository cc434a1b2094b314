-- ===== src/Batch/Reason.antt =====
-- packages/aws-durable-execution-sdk-js/src/handlers/concurrent-execution-handler/
-- concurrent-execution-handler.ts: when a batch goes on, when it is complete, and why it ended.
-- `exceeds f n p` is the platform's floating-point test `(f / n) * 100 > p`.
pub mod Agreement
use aws_durable_execution_sd.Common.{
  ℕ, Bool, true, false, not, ◌&&◌, ◌||◌, Option, none, some, List, [], length, ltb, leb, ◌==◌,
  is_some, if◌then◌else◌, codes,
}
use aws_durable_execution_sd.Termination.{TerminationManager, terminate, config_validation_error}
use aws_durable_execution_sd.Batch.{
  CompletionConfig, ConcurrencyConfig, CompletionStatus, CompletionDecision, keep_going, complete,
  CompletionOutcome, CompletionReason, all_completed, min_successful_reached,
  failure_tolerance_exceeded, custom_completion_succeeded, custom_completion_failed,
  has_any_completion_criteria, is_complete_decision,
}

-- The numbers that the tests read.
pub record Tally : Type 0 where
  pub success : ℕ
  pub failure : ℕ
  pub completed : ℕ
  pub total : ℕ

abbrev pub reason_of_outcome : Option CompletionOutcome → CompletionReason
reason_of_outcome (some CompletionOutcome.failed) = custom_completion_failed
reason_of_outcome _ = custom_completion_succeeded

module _ {Percent : Type 0} (exceeds : ℕ → ℕ → Percent → Bool) where
  abbrev pub beyond_count : ℕ → Option ℕ → Bool
  beyond_count failure none = false
  beyond_count failure (some tolerated) = ltb tolerated failure

  abbrev pub beyond_percentage : ℕ → ℕ → Option Percent → Bool
  beyond_percentage failure total none = false
  beyond_percentage failure total (some tolerated) = exceeds failure total tolerated

  abbrev pub enough : ℕ → Option ℕ → Bool
  enough success none = false
  enough success (some least) = leb least success

  unfoldable pub should_continue :
      Option (CompletionConfig Percent) → Tally → CompletionStatus → Bool
  should_continue none t s = t.failure == 0
  should_continue (some c) t s = elim c.should_complete [
    | some f ↦ not (is_complete_decision (f s))
    | none ↦
        if not (has_any_completion_criteria c)
        then t.failure == 0
        else not (
            beyond_count t.failure c.tolerated_failure_count
            || beyond_percentage t.failure t.total c.tolerated_failure_percentage)
  ]

  unfoldable pub is_complete : Option (CompletionConfig Percent) → Tally → CompletionStatus → Bool
  is_complete none t s = t.completed == t.total
  is_complete (some c) t s = t.completed == t.total || elim c.should_complete [
    | some f ↦ is_complete_decision (f s)
    | none ↦ enough t.success c.min_successful
  ]

  abbrev reason_of_counts : Option ℕ → Tally → CompletionReason
  reason_of_counts least t =
      if t.completed == t.total
      then all_completed
      else if enough t.success least
      then min_successful_reached
      else all_completed

  unfoldable pub get_completion_reason :
      Option (CompletionConfig Percent) → Tally → CompletionStatus → CompletionReason
  get_completion_reason none t s =
      if ltb 0 t.failure then failure_tolerance_exceeded else reason_of_counts none t
  get_completion_reason (some c) t s = elim c.should_complete [
    | some f ↦ elim (f s) [ complete o ↦ reason_of_outcome o | keep_going ↦ all_completed ]
    | none ↦
        if not (has_any_completion_criteria c)
        then if ltb 0 t.failure
          then failure_tolerance_exceeded
          else reason_of_counts c.min_successful t
        else if beyond_count t.failure c.tolerated_failure_count
            || beyond_percentage t.failure t.total c.tolerated_failure_percentage
        then failure_tolerance_exceeded
        else reason_of_counts c.min_successful t
  ]
