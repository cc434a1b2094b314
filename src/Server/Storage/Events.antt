-- ===== src/Server/Storage/Events.antt =====
-- checkpoint-server/storage/event-processor.ts and utils/history-event-details.ts: the history
-- events. The details of an event are told by their shape; their place follows from its type.
use aws_durable_execution_sd.Common.{
  ℕ, ◌+◌, ◌*◌, Option, none, some, Text, is_some, get_or, if◌then◌else◌,
}
use aws_durable_execution_sd.Wire.{
  OperationType, callback, chained_invoke, context, execution, step, wait, OperationAction, fail,
  retry, start, succeed, ErrorObject, OperationUpdate, Operation, StepDetails, WaitOptions,
  StepOptions, CallbackOptions, CallbackDetails,
}

pub data EventType : Type 0 where
  execution_started execution_failed execution_succeeded execution_stopped execution_timed_out :
      EventType
  callback_started callback_succeeded callback_failed callback_timed_out : EventType
  context_started context_failed context_succeeded : EventType
  chained_invoke_started chained_invoke_failed chained_invoke_succeeded chained_invoke_stopped
        chained_invoke_timed_out :
      EventType
  step_started step_failed step_succeeded : EventType
  wait_started wait_succeeded wait_cancelled : EventType
  invocation_completed : EventType

-- `{ Payload: … }`, with its payload or without.
pub record Payload (A : Type 0) : Type 0 where
  pub payload : Option A

pub record RetryDetails : Type 0 where
  pub next_attempt_delay_seconds : Option ℕ
  pub current_attempt : Option ℕ

pub data EventDetails : Type 0 where
  no_details : EventDetails
  input : Payload Text → Option ℕ → EventDetails
  ended : Option (Payload Text) → Option (Payload ErrorObject) → EventDetails
  attempted : Option (Payload Text) → Option (Payload ErrorObject) → RetryDetails → EventDetails
  awaits_callback : Option Text → Option ℕ → Option ℕ → Payload Text → EventDetails
  invokes : EventDetails
  waits : Option ℕ → Option ℕ → EventDetails
  invoked : ℕ → ℕ → Payload ErrorObject → Text → EventDetails

pub record Event : Type 0 where
  pub event_type : EventType
  pub sub_type : Option Text
  pub event_id : ℕ
  pub id : Option Text
  pub name : Option Text
  pub event_timestamp : ℕ
  pub parent_id : Option Text
  pub details : EventDetails

abbrev pub payload_of : {A : Type 0} → Option A → Payload A
payload_of a = record { payload = a }

abbrev pub failed_with : OperationUpdate → EventDetails
failed_with u = ended none (some (payload_of u.error))

abbrev pub succeeded_with : OperationUpdate → EventDetails
succeeded_with u = ended (some (payload_of u.payload)) none

abbrev step_delay : Option StepOptions → Option ℕ
step_delay none = none
step_delay (some o) = o.next_attempt_delay_seconds

abbrev step_attempt : Option StepDetails → Option ℕ
step_attempt none = none
step_attempt (some d) = d.attempt

abbrev pub timeout_of : Option CallbackOptions → Option ℕ
timeout_of none = none
timeout_of (some o) = o.timeout_seconds

abbrev pub heartbeat_of : Option CallbackOptions → Option ℕ
heartbeat_of none = none
heartbeat_of (some o) = o.heartbeat_timeout_seconds

abbrev callback_id_of : Option CallbackDetails → Option Text
callback_id_of none = none
callback_id_of (some d) = d.callback_id

abbrev pub wait_seconds_of : Option WaitOptions → Option ℕ
wait_seconds_of none = none
wait_seconds_of (some o) = o.wait_seconds

abbrev pub EventKind : Type 0
EventKind = EventType × EventDetails

-- `FAIL-STEP` and `SUCCEED-STEP`.
abbrev step_failed_event : OperationUpdate → Operation → EventKind
step_failed_event u op = (
  step_failed,
  attempted none (some (payload_of u.error)) (record {
    next_attempt_delay_seconds = step_delay u.step_options;
    current_attempt = some (get_or (step_attempt op.step_details) 1);
  }),
)

abbrev step_succeeded_event : OperationUpdate → Operation → EventKind
step_succeeded_event u op = (
  step_succeeded,
  attempted (some (payload_of u.payload)) none (record {
    next_attempt_delay_seconds = step_delay u.step_options;
    current_attempt = step_attempt op.step_details;
  }),
)

-- `historyEventDetailMap`, with the details of the entry. There is no entry for `CANCEL`.
unfoldable pub get_history_event_detail :
    ℕ → Option ℕ → OperationAction → OperationType → OperationUpdate → Operation → Option EventKind
get_history_event_detail now timeout start execution u op =
    some (execution_started, input (payload_of u.payload) timeout)
get_history_event_detail now timeout fail execution u op = some (execution_failed, failed_with u)
get_history_event_detail now timeout succeed execution u op =
    some (execution_succeeded, succeeded_with u)
get_history_event_detail now timeout start callback u op = some (
  callback_started,
  awaits_callback (callback_id_of op.callback_details) (timeout_of u.callback_options)
      (heartbeat_of u.callback_options) (payload_of u.payload),
)
get_history_event_detail now timeout start context u op = some (context_started, no_details)
get_history_event_detail now timeout fail context u op = some (context_failed, failed_with u)
get_history_event_detail now timeout succeed context u op =
    some (context_succeeded, succeeded_with u)
get_history_event_detail now timeout start chained_invoke u op =
    some (chained_invoke_started, invokes)
get_history_event_detail now timeout start step u op = some (step_started, no_details)
get_history_event_detail now timeout fail step u op = some (step_failed_event u op)
get_history_event_detail now timeout succeed step u op = some (step_succeeded_event u op)
get_history_event_detail now timeout start wait u op =
    let seconds = wait_seconds_of u.wait_options in
    some (wait_started, waits seconds (some (now + get_or seconds 0 * 1000)))
get_history_event_detail now timeout _ _ u op = none

unfoldable pub get_retry_history_event_detail : OperationUpdate → Operation → EventKind
get_retry_history_event_detail u op =
    if is_some u.error then step_failed_event u op else step_succeeded_event u op

event_kind :
    ℕ
    → Option ℕ
    → Option OperationAction
    → Option OperationType
    → OperationUpdate
    → Operation
    → Option EventKind
unfolding get_history_event_detail get_retry_history_event_detail
event_kind now timeout (some retry) (some type) u op = some (get_retry_history_event_detail u op)
event_kind now timeout (some action) (some type) u op =
    get_history_event_detail now timeout action type u op
event_kind now timeout action type u op = none

abbrev update_event : ℕ → OperationUpdate → ℕ → Option EventKind → Option Event
update_event now u event_id none = none
update_event now u event_id (some (t, d)) = some (record {
  event_type = t;
  sub_type = u.sub_type;
  event_id = event_id;
  id = u.id;
  name = u.name;
  event_timestamp = now;
  parent_id = u.parent_id;
  details = d;
})

-- The event of an update, with the number that it gets; `none` where `processUpdate` throws.
unfoldable pub process_update : ℕ → Option ℕ → OperationUpdate → Operation → ℕ → Option Event
unfolding event_kind
process_update now timeout u op event_id =
    update_event now u event_id (event_kind now timeout u.action op.type u op)

unfoldable pub create_history_event : ℕ → EventKind → Operation → ℕ → Event
create_history_event now (t, d) op event_id = record {
  event_type = t;
  sub_type = op.sub_type;
  event_id = event_id;
  id = op.id;
  name = op.name;
  event_timestamp = now;
  parent_id = op.parent_id;
  details = d;
}
