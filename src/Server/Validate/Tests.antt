-- ===== src/Server/Validate/Tests.antt =====
-- Examples of requests to the checkpoint server.
use aws_durable_execution_sd.Common.{
  ℕ, ◌≡◌, ◌≢◌, ◌↔◌, refl, Option, none, some, List, [], ◌∷◌, Text, codes, All, arith, Text-discrete,
}
use aws_durable_execution_sd.Common.Map
use aws_durable_execution_sd.Wire.{
  Operation, OperationUpdate, OperationType, OperationType-discrete, step, context, execution,
  OperationAction, start, succeed, succeeded,
}
use aws_durable_execution_sd.Server.Validate.{
  ok, is_valid_action, validate_operation_status_transition,
}
use aws_durable_execution_sd.Server.Validate.Batch.{
  validate_checkpoint_updates, validate_conflicting_execution_update,
  validate_parent_id_and_duplicate_id, is_invalid_duplicate_update, is_valid_parent_for_update,
  validate_operation_update,
}
use aws_durable_execution_sd.Server.Validate.Transitions.{
  Transition, validate_operation_status_transition_iff, closed_rejects,
}
use aws_durable_execution_sd.Server.Validate.Request.{
  ExecutionLast, IdsValid, validate_parent_id_and_duplicate_id_iff,
  validate_conflicting_execution_update_iff,
}
use aws_durable_execution_sd.Server.Validate.Accepted.{
  UpdateAccepted, validate_checkpoint_updates_iff,
}

abbrev update : Text → Option Text → OperationType → OperationAction → OperationUpdate
update id parent t a = record {
  id = some id;
  parent_id = parent;
  name = none;
  type = some t;
  sub_type = none;
  action = some a;
  payload = none;
  error = none;
  context_options = none;
  step_options = none;
  wait_options = none;
  callback_options = none;
  chained_invoke_options = none;
}

abbrev closed_step : Operation
closed_step = record {
  id = some (codes "1-1");
  parent_id = some (codes "1");
  name = none;
  type = some step;
  sub_type = none;
  start_timestamp = none;
  end_timestamp = none;
  status = some succeeded;
  execution_details = none;
  context_details = none;
  step_details = none;
  wait_details = none;
  callback_details = none;
  chained_invoke_details = none;
}

abbrev first_request : List OperationUpdate
first_request =
    update (codes "1") none context start
    ∷ update (codes "1-1") (some (codes "1")) step start
    ∷ update (codes "1-1") (some (codes "1")) step succeed
    ∷ []

abbrev small : OperationUpdate → ℕ
small u = 100

first_request_ok : validate_checkpoint_updates small first_request [] ≡ ok tt
unfolding validate_checkpoint_updates validate_conflicting_execution_update OperationType-discrete
    validate_parent_id_and_duplicate_id is_invalid_duplicate_update Map.get
    is_valid_parent_for_update Map.set Text-discrete validate_operation_update is_valid_action
first_request_ok = refl

validate_checkpoint_updates_iff_example :
    (validate_checkpoint_updates small first_request [] ≡ ok tt) ↔ (
      ExecutionLast first_request
      × IdsValid [] [] first_request
      × All (UpdateAccepted small []) first_request)
validate_checkpoint_updates_iff_example = validate_checkpoint_updates_iff small [] first_request

validate_parent_id_and_duplicate_id_iff_example :
    (validate_parent_id_and_duplicate_id first_request [] ≡ ok tt) ↔ IdsValid [] [] first_request
validate_parent_id_and_duplicate_id_iff_example =
    validate_parent_id_and_duplicate_id_iff [] first_request

validate_conflicting_execution_update_iff_example :
    (validate_conflicting_execution_update first_request ≡ ok tt) ↔ ExecutionLast first_request
validate_conflicting_execution_update_iff_example =
    validate_conflicting_execution_update_iff first_request

validate_operation_status_transition_iff_example :
    (validate_operation_status_transition (update (codes "1") none context start) none ≡ ok tt)
    ↔ Transition (update (codes "1") none context start) none
validate_operation_status_transition_iff_example =
    validate_operation_status_transition_iff (update (codes "1") none context start) none

step_is_not_execution : ◌≢◌ {A = Option OperationType} (some step) (some execution)
step_is_not_execution = λ e. absurd (ground (arith, e))

closed_rejects_example :
    validate_operation_status_transition (update (codes "1-1") none step succeed) (some closed_step)
    ≢ ok tt
closed_rejects_example =
    closed_rejects (update (codes "1-1") none step succeed) closed_step succeeded refl refl
      step_is_not_execution
