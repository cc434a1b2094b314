-- ===== src/Batch.antt =====
-- packages/aws-durable-execution-sdk-js/src/types/batch.ts: items, completion settings and results of
-- `map` and `parallel`, and the errors that an item ends with. `R` is the type of an item's result
-- and `Percent` that of a tolerated percentage, a floating-point number of the platform.
mod Tests
mod ReplayTests
pub mod Result
pub mod Reason
pub mod Run
pub mod Settings
pub mod Replay
pub mod Serial
use aws_durable_execution_sd.Common.{
  ℕ, Bool, true, false, Option, none, some, List, ◌∷◌, Text, codes, is_some, is_empty,
  if◌then◌else◌, ◌||◌,
}

pub data BatchItemStatus : Type 0 where
  succeeded failed started : BatchItemStatus

pub data CompletionReason : Type 0 where
  all_completed min_successful_reached failure_tolerance_exceeded custom_completion_succeeded
        custom_completion_failed :
      CompletionReason

pub data CompletionOutcome : Type 0 where
  succeeded failed : CompletionOutcome

-- The classes of `errors/durable-error/durable-error.ts`, and a plain `Error` with its name.
pub data ErrorClass : Type 0 where
  plain : Text → ErrorClass
  child_context other_durable : ErrorClass

-- A JavaScript `Error`, with or without a cause. Stack traces are off (`STORE_STACK_TRACES`).
pub data JsError : Type 0 where
  uncaused : ErrorClass → Text → JsError
  caused : ErrorClass → Text → JsError → JsError

-- What a promise is rejected with: an `Error`, or another value with its text.
pub data Rejection : Type 0 where
  thrown_error : JsError → Rejection
  thrown_value : Text → Rejection

abbrev pub message_of : JsError → Text
message_of (uncaused c m) = m
message_of (caused c m e) = m

abbrev pub is_child_context : JsError → Bool
is_child_context (uncaused child_context m) = true
is_child_context (caused child_context m e) = true
is_child_context _ = false

-- `message || "Child context failed"` of the constructor of `ChildContextError`.
abbrev pub child_context_message : Text → Text
child_context_message m = if is_empty m then codes "Child context failed" else m

abbrev pub as_child_context_error : Rejection → JsError
as_child_context_error (thrown_error e) =
    if is_child_context e then e else caused child_context (child_context_message (message_of e)) e
as_child_context_error (thrown_value t) = uncaused child_context (child_context_message t)

pub record BatchItem (R : Type 0) : Type 0 where
  pub result : Option R
  pub error : Option JsError
  pub index : ℕ
  pub status : BatchItemStatus

pub record ConcurrentExecutionItem (T : Type 0) : Type 0 where
  pub id : Text
  pub data_of : T
  pub index : ℕ
  pub name : Option Text

pub record CompletionItemStatus : Type 0 where
  pub index : ℕ
  pub name : Option Text
  pub status : Option BatchItemStatus

pub record CompletionStatus : Type 0 where
  pub success_count : ℕ
  pub failure_count : ℕ
  pub completed_count : ℕ
  pub total_count : ℕ
  pub items : List CompletionItemStatus

pub data CompletionDecision : Type 0 where
  keep_going : CompletionDecision
  complete : Option CompletionOutcome → CompletionDecision

pub record CompletionConfig (Percent : Type 0) : Type 0 where
  pub min_successful : Option ℕ
  pub tolerated_failure_count : Option ℕ
  pub tolerated_failure_percentage : Option Percent
  pub should_complete : Option (CompletionStatus → CompletionDecision)

pub record ConcurrencyConfig (Percent : Type 0) : Type 0 where
  pub max_concurrency : Option ℕ
  pub completion_config : Option (CompletionConfig Percent)

-- `Object.values(completion).some((value) => value !== undefined)`
abbrev pub has_any_completion_criteria : {Percent : Type 0} → CompletionConfig Percent → Bool
has_any_completion_criteria c =
    is_some c.min_successful
    || is_some c.tolerated_failure_count
    || is_some c.tolerated_failure_percentage
    || is_some c.should_complete

abbrev pub is_complete_decision : CompletionDecision → Bool
is_complete_decision keep_going = false
is_complete_decision (complete o) = true
