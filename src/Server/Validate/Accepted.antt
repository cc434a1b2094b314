-- ===== src/Server/Validate/Accepted.antt =====
-- checkpoint-server/validators: the requests that the server accepts.
use aws_durable_execution_sd.Common.{ℕ, ◌≤◌, ◌≡◌, ◌↔◌, ◌⊎◌, Option, none, List, [], ◌∷◌, All, arith}
use aws_durable_execution_sd.Wire.{OperationUpdate, Operation}
use aws_durable_execution_sd.Server.Validate.{
  ok, Operations, max_error_payload_size_bytes, validate_operation_status_transition,
  validate_valid_actions_by_operation_type, is_valid_action,
}
use aws_durable_execution_sd.Server.Validate.Batch.{
  current_operation, validate_payload_sizes, validate_operation_update, validate_each,
  validate_checkpoint_updates,
}
use aws_durable_execution_sd.Server.Validate.Transitions.{
  Transition, validate_operation_status_transition_iff,
}
use aws_durable_execution_sd.Server.Validate.Request.{
  ExecutionLast, IdsValid, validate_parent_id_and_duplicate_id_iff,
  validate_conflicting_execution_update_iff,
}

-- A legal transition has a valid action for its type.
transition_has_valid_action :
    (u : OperationUpdate) (op : Option Operation)
    → validate_operation_status_transition u op ≡ ok tt
    → validate_valid_actions_by_operation_type u.type u.action ≡ ok tt
unfolding validate_operation_status_transition validate_valid_actions_by_operation_type
    is_valid_action
transition_has_valid_action u op h = ground arith

module _ (wire_size : OperationUpdate → ℕ) (ops : Operations) where
  -- One update of the request: its error fits, and it makes a legal transition.
  abbrev pub UpdateAccepted : OperationUpdate → Type 0
  UpdateAccepted u =
      ((u.error ≡ none) ⊎ (wire_size u ≤ max_error_payload_size_bytes))
      × Transition u (current_operation wire_size u ops)

  validate_operation_update_iff :
      (u : OperationUpdate) → (validate_operation_update wire_size u ops ≡ ok tt) ↔ UpdateAccepted u
  unfolding validate_operation_update validate_payload_sizes
  validate_operation_update_iff u =
      let transition =
        validate_operation_status_transition_iff u (current_operation wire_size u ops) in
      let action = transition_has_valid_action u (current_operation wire_size u ops) in
      (
        λ h. (ground arith, transition.0 (ground arith)),
        λ (fits, t). ground (arith, transition.1 t, action),
      )

  validate_each_iff :
      (us : List OperationUpdate) → (validate_each wire_size us ops ≡ ok tt) ↔ All UpdateAccepted us
  unfolding validate_each
  validate_each_iff [] = ground arith
  validate_each_iff (u ∷ us) =
      let here = validate_operation_update_iff u in
      let later = validate_each_iff us in
      (
        λ h. (here.0 (ground arith), later.0 (ground arith)),
        λ (a, rest). ground (arith, here.1 a, later.1 rest),
      )

  -- The server accepts a request exactly if any EXECUTION update stands last, the ids and parents are
  -- valid in the order of the request, every update with an error is of at most 32768 bytes, and every
  -- update makes a legal transition of the operation that the server holds under its id.
  pub validate_checkpoint_updates_iff :
      (us : List OperationUpdate)
      → (validate_checkpoint_updates wire_size us ops ≡ ok tt)
        ↔ (ExecutionLast us × IdsValid ops [] us × All UpdateAccepted us)
  unfolding validate_checkpoint_updates
  validate_checkpoint_updates_iff [] = ground arith
  validate_checkpoint_updates_iff (u ∷ us) =
      let last = validate_conflicting_execution_update_iff (u ∷ us) in
      let ids = validate_parent_id_and_duplicate_id_iff ops (u ∷ us) in
      let each = validate_each_iff (u ∷ us) in
      (
        λ h. (last.0 (ground arith), ids.0 (ground arith), each.0 (ground arith)),
        λ (l, i, e). ground (arith, last.1 l, ids.1 i, each.1 e),
      )
