-- ===== src/Batch/Serial.antt =====
-- packages/aws-durable-execution-sdk-js/src/errors/durable-error/durable-error.ts, the conversions of
-- errors to and from their wire form, and handlers/concurrent-execution-handler/batch-result.ts, the
-- serialization of a batch. JSON is the platform's: `to_json` gives what the text keeps of the result
-- of an item, if anything, and `from_json` what is parsed from that; the other fields are texts and
-- numbers, which the text keeps. Stack traces are off (`STORE_STACK_TRACES`).
pub mod RoundTrip
use aws_durable_execution_sd.Common.{
  ℕ, zero, suc, Bool, true, false, Option, none, some, List, [], ◌∷◌, map, Text, codes,
  Text-discrete, decide, get_or, if◌then◌else◌,
}
use aws_durable_execution_sd.Wire.{ErrorObject}
use aws_durable_execution_sd.Batch.{BatchItemStatus, CompletionReason, all_completed}

-- The subclasses of `DurableOperationError` in `KNOWN_DURABLE_ERROR_TYPES`.
pub data DurableKind : Type 0 where
  step_error callback_error callback_external_error callback_timeout_error : DurableKind
  callback_submitter_error invoke_error child_context_error promise_combinator_error : DurableKind
  wait_for_condition_error : DurableKind

-- A plain `Error` with its name, or a durable one with its `errorData`; a `BatchCompletionError` is
-- none of the known types.
pub data ErrorClass : Type 0 where
  plain : Text → ErrorClass
  durable : DurableKind → Option Text → ErrorClass
  batch_completion : Option Text → ErrorClass

-- An error of a class with its message, and with or without an error as its cause.
pub data SdkError : Type 0 where
  uncaused : ErrorClass → Text → SdkError
  caused : ErrorClass → Text → SdkError → SdkError

abbrev pub error_type_of : DurableKind → Text
error_type_of step_error = codes "StepError"
error_type_of callback_error = codes "CallbackError"
error_type_of callback_external_error = codes "CallbackExternalError"
error_type_of callback_timeout_error = codes "CallbackTimeoutError"
error_type_of callback_submitter_error = codes "CallbackSubmitterError"
error_type_of invoke_error = codes "InvokeError"
error_type_of child_context_error = codes "ChildContextError"
error_type_of promise_combinator_error = codes "PromiseCombinatorError"
error_type_of wait_for_condition_error = codes "WaitForConditionError"

abbrev pub default_message : DurableKind → Text
default_message step_error = codes "Step failed"
default_message callback_error = codes "Callback failed"
default_message callback_external_error = codes "Callback failed"
default_message callback_timeout_error = codes "Callback timed out"
default_message callback_submitter_error = codes "Callback submitter failed"
default_message invoke_error = codes "Invoke failed"
default_message child_context_error = codes "Child context failed"
default_message promise_combinator_error = codes "Promise combinator failed"
default_message wait_for_condition_error = codes "Wait for condition failed"

-- The types that `fromErrorObject` has a case for.
abbrev pub known_kinds : List DurableKind
known_kinds =
    step_error ∷ callback_error ∷ callback_external_error ∷ callback_timeout_error
    ∷ callback_submitter_error ∷ invoke_error ∷ child_context_error ∷ promise_combinator_error
    ∷ wait_for_condition_error ∷ []

abbrev find_kind : Text → List DurableKind → Option DurableKind
find_kind t [] = none
find_kind t (k ∷ ks) =
    let rest = find_kind t ks in if decide (Text-discrete t (error_type_of k)) then some k else rest

unfoldable pub known_kind : Text → Option DurableKind
known_kind t = find_kind t known_kinds

abbrev pub data_of : ErrorClass → Option Text
data_of (plain n) = none
data_of (durable k d) = d
data_of (batch_completion d) = d

abbrev first_data : ErrorClass → Option Text → Option Text
first_data (durable k (some d)) rest = some d
first_data (batch_completion (some d)) rest = some d
first_data _ rest = rest

-- The loop of `toErrorObject` over the causes, of so many turns.
unfoldable pub surface_data : ℕ → SdkError → Option Text
surface_data zero e = none
surface_data (suc turns) (uncaused c m) = first_data c none
surface_data (suc turns) (caused c m e) = first_data c (surface_data turns e)

abbrev pub max_cause_depth : ℕ
max_cause_depth = 10

abbrev own_or_surfaced : Option Text → Option SdkError → Option Text
own_or_surfaced (some d) cause = some d
own_or_surfaced none none = none
own_or_surfaced none (some e) = surface_data max_cause_depth e

-- The `ErrorData` of `toErrorObject`, for an error of the class with the cause.
abbrev pub object_data : ErrorClass → Option SdkError → Option Text
object_data (plain n) cause = none
object_data (durable k d) cause = own_or_surfaced d cause
object_data (batch_completion d) cause = own_or_surfaced d cause

abbrev pub type_name : ErrorClass → Text
type_name (plain n) = n
type_name (durable k d) = error_type_of k
type_name (batch_completion d) = codes "BatchCompletionError"

-- `SerializedBatchError`: an `ErrorObject`, with or without its `Cause`.
pub data SerializedBatchError : Type 0 where
  root : ErrorObject → SerializedBatchError
  with_cause : ErrorObject → SerializedBatchError → SerializedBatchError

abbrev pub error_object : ErrorClass → Text → Option SdkError → ErrorObject
error_object c m cause = record {
  error_type = some (type_name c);
  error_message = some m;
  error_data = object_data c cause;
  stack_trace = none;
}

unfoldable pub serialize_batch_error : SdkError → SerializedBatchError
unfolding surface_data
serialize_batch_error (uncaused c m) = root (error_object c m none)
serialize_batch_error (caused c m e) =
    with_cause (error_object c m (some e)) (serialize_batch_error e)

-- `a || b` on texts.
abbrev pub or_text : Option Text → Text → Text
or_text none d = d
or_text (some []) d = d
or_text (some (c ∷ t)) d = c ∷ t

abbrev known_type : Option Text → Option DurableKind
known_type none = none
known_type (some t) = known_kind t

abbrev rebuilt_class : Option DurableKind → ErrorObject → ErrorClass
rebuilt_class (some k) o = durable k o.error_data
rebuilt_class none o = plain (or_text o.error_type (codes "Error"))

abbrev rebuilt_message : Option DurableKind → ErrorObject → Text
rebuilt_message (some k) o = or_text o.error_message (default_message k)
rebuilt_message none o = get_or o.error_message []

-- The cause that `fromErrorObject` makes up.
abbrev pub synthesized : ErrorObject → SdkError
synthesized o = uncaused (plain (or_text o.error_type (codes "Error"))) (get_or o.error_message [])

rebuilt_root : Option DurableKind → ErrorObject → SdkError
rebuilt_root (some k) o =
    caused (rebuilt_class (some k) o) (rebuilt_message (some k) o) (synthesized o)
rebuilt_root none o = uncaused (rebuilt_class none o) (rebuilt_message none o)

rebuilt_error : Option DurableKind → ErrorObject → SdkError
rebuilt_error (some k) o =
    caused (durable k o.error_data) (or_text o.error_message (default_message k)) (synthesized o)
rebuilt_error none o =
    caused (durable step_error o.error_data) (or_text o.error_message (codes "Unknown error"))
      (synthesized o)

-- `DurableOperationError.fromErrorObject`.
unfoldable pub from_error_object : ErrorObject → SdkError
unfolding rebuilt_error known_kind
from_error_object o = rebuilt_error (known_type o.error_type) o

unfoldable pub reconstruct_batch_error : SerializedBatchError → SdkError
unfolding rebuilt_root known_kind
reconstruct_batch_error (root o) = rebuilt_root (known_type o.error_type) o
reconstruct_batch_error (with_cause o w) =
    caused (rebuilt_class (known_type o.error_type) o) (rebuilt_message (known_type o.error_type) o)
      (reconstruct_batch_error w)

pub record LiveItem (R : Type 0) : Type 0 where
  pub result : Option R
  pub error : Option SdkError
  pub index : ℕ
  pub status : BatchItemStatus

-- An item in the JSON text, where `J` is what the text keeps of a result.
pub record SerializedBatchItem (J : Type 0) : Type 0 where
  pub result : Option J
  pub error : Option SerializedBatchError
  pub index : ℕ
  pub status : BatchItemStatus

pub record SerializedBatchResult (J : Type 0) : Type 0 where
  pub all : List (SerializedBatchItem J)
  pub completion_reason : CompletionReason

abbrev serialize_error : Option SdkError → Option SerializedBatchError
serialize_error none = none
serialize_error (some e) = some (serialize_batch_error e)

abbrev restore_error : Option SerializedBatchError → Option SdkError
restore_error none = none
restore_error (some w) = some (reconstruct_batch_error w)

module _ {R J : Type 0} (to_json : R → Option J) where
  abbrev kept : Option R → Option J
  kept none = none
  kept (some r) = to_json r

  abbrev pub serialized_item : LiveItem R → SerializedBatchItem J
  serialized_item b = record {
    result = kept b.result;
    error = serialize_error b.error;
    index = b.index;
    status = b.status;
  }

  -- `serialize` of `createBatchResultSerdes`.
  unfoldable pub serialize_batch : List (LiveItem R) → CompletionReason → SerializedBatchResult J
  serialize_batch all reason = record { all = map serialized_item all; completion_reason = reason }

module _ {R J : Type 0} (from_json : J → R) where
  abbrev parsed : Option J → Option R
  parsed none = none
  parsed (some j) = some (from_json j)

  abbrev pub restored_item : SerializedBatchItem J → LiveItem R
  restored_item b = record {
    result = parsed b.result;
    error = restore_error b.error;
    index = b.index;
    status = b.status;
  }

  -- The items and the reason of `restoreBatchResult`; anything but an object with an array `all` is
  -- `none`.
  unfoldable pub restore_batch_result :
      Option (SerializedBatchResult J) → List (LiveItem R) × CompletionReason
  restore_batch_result none = ([], all_completed)
  restore_batch_result (some w) = (map restored_item w.all, w.completion_reason)
