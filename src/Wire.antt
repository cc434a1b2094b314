-- ===== src/Wire.antt =====
-- packages/aws-durable-execution-sdk-js/src/types/wire: the enums and the records that the SDK and
-- the checkpoint server exchange. A timestamp is a number of milliseconds.
use aws_durable_execution_sd.Common.{ℕ, Bool, true, false, Option, none, some, List, Text}

pub data OperationType : Type 0 where
  callback chained_invoke context execution step wait : OperationType

pub data OperationStatus : Type 0 where
  cancelled failed pending ready started stopped succeeded timed_out : OperationStatus

pub data OperationAction : Type 0 where
  cancel fail retry start succeed : OperationAction

unfoldable pub OperationType-discrete : Discrete OperationType
OperationType-discrete = hlevel

unfoldable pub OperationStatus-discrete : Discrete OperationStatus
OperationStatus-discrete = hlevel

pub record ErrorObject : Type 0 where
  pub error_message : Option Text
  pub error_type : Option Text
  pub error_data : Option Text
  pub stack_trace : Option (List Text)

pub record ContextDetails : Type 0 where
  pub replay_children : Option Bool
  pub result : Option Text
  pub error : Option ErrorObject

pub record StepDetails : Type 0 where
  pub attempt : Option ℕ
  pub next_attempt_timestamp : Option ℕ
  pub result : Option Text
  pub error : Option ErrorObject

pub record WaitDetails : Type 0 where
  pub scheduled_end_timestamp : Option ℕ

pub record CallbackDetails : Type 0 where
  pub callback_id : Option Text
  pub result : Option Text
  pub error : Option ErrorObject

pub record ChainedInvokeDetails : Type 0 where
  pub result : Option Text
  pub error : Option ErrorObject

pub record ExecutionDetails : Type 0 where
  pub input_payload : Option Text

pub record Operation : Type 0 where
  pub id : Option Text
  pub parent_id : Option Text
  pub name : Option Text
  pub type : Option OperationType
  pub sub_type : Option Text
  pub start_timestamp : Option ℕ
  pub end_timestamp : Option ℕ
  pub status : Option OperationStatus
  pub execution_details : Option ExecutionDetails
  pub context_details : Option ContextDetails
  pub step_details : Option StepDetails
  pub wait_details : Option WaitDetails
  pub callback_details : Option CallbackDetails
  pub chained_invoke_details : Option ChainedInvokeDetails

pub record ContextOptions : Type 0 where
  pub replay_children : Option Bool

pub record StepOptions : Type 0 where
  pub next_attempt_delay_seconds : Option ℕ

pub record WaitOptions : Type 0 where
  pub wait_seconds : Option ℕ

pub record CallbackOptions : Type 0 where
  pub timeout_seconds : Option ℕ
  pub heartbeat_timeout_seconds : Option ℕ

pub record ChainedInvokeOptions : Type 0 where
  pub function_name : Option Text
  pub tenant_id : Option Text

pub record OperationUpdate : Type 0 where
  pub id : Option Text
  pub parent_id : Option Text
  pub name : Option Text
  pub type : Option OperationType
  pub sub_type : Option Text
  pub action : Option OperationAction
  pub payload : Option Text
  pub error : Option ErrorObject
  pub context_options : Option ContextOptions
  pub step_options : Option StepOptions
  pub wait_options : Option WaitOptions
  pub callback_options : Option CallbackOptions
  pub chained_invoke_options : Option ChainedInvokeOptions

-- The Boolean tests `x === OperationStatus.STARTED` and their like, on a value that may be absent.
abbrev pub has_status : OperationStatus → Option OperationStatus → Bool
has_status s none = false
has_status s (some t) = elim (OperationStatus-discrete s t) [ yes _ ↦ true | no _ ↦ false ]

abbrev pub has_type : OperationType → Option OperationType → Bool
has_type s none = false
has_type s (some t) = elim (OperationType-discrete s t) [ yes _ ↦ true | no _ ↦ false ]

-- `a === b`
abbrev pub same_status : Option OperationStatus → Option OperationStatus → Bool
same_status none none = true
same_status (some s) t = has_status s t
same_status none (some t) = false
