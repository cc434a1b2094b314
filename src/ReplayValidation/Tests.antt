-- ===== src/ReplayValidation/Tests.antt =====
-- Examples of the check of a replay.
use aws_durable_execution_sd.Common.{none, some, codes}
use aws_durable_execution_sd.Wire.{step, wait, started, Operation}
use aws_durable_execution_sd.Termination.{new_manager}
use aws_durable_execution_sd.ReplayValidation.{
  CurrentOperation, validate_replay_consistency, Judged, validate_replay_consistency-Judged,
}

-- A step where a wait is recorded.
abbrev a_step : CurrentOperation
a_step = record { type = step; name = some (codes "pay"); sub_type = codes "Step" }

abbrev recorded_wait : Operation
recorded_wait = record {
  id = some (codes "1");
  parent_id = none;
  name = some (codes "pay");
  type = some wait;
  sub_type = some (codes "Wait");
  start_timestamp = none;
  end_timestamp = none;
  status = some started;
  execution_details = none;
  context_details = none;
  step_details = none;
  wait_details = none;
  callback_details = none;
  chained_invoke_details = none;
}

validate_replay_consistency-Judged_example :
    Judged
      (codes "1")
      a_step
      (some recorded_wait)
      new_manager
      (validate_replay_consistency (codes "1") a_step (some recorded_wait) new_manager)
validate_replay_consistency-Judged_example =
    validate_replay_consistency-Judged (codes "1") a_step (some recorded_wait) new_manager
