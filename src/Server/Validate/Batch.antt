-- ===== src/Server/Validate/Batch.antt =====
-- checkpoint-server/validators/checkpoint-durable-execution-input-validator.ts: a whole request.
-- `JSON.stringify` and `TextEncoder` are the platform's: `wire_size` stands for the number of bytes
-- of an update's JSON text.
use aws_durable_execution_sd.Common.{
  ℕ, Bool, true, false, not, ◌&&◌, ◌||◌, Option, none, some, List, [], ◌∷◌, Text, present,
  Text-discrete, ltb, ◌==◌, if◌then◌else◌, is_some, keep, length,
}
use aws_durable_execution_sd.Common.Map
use aws_durable_execution_sd.Wire.{
  context, execution, step, OperationAction, start, OperationUpdate, Operation, has_type,
}
use aws_durable_execution_sd.Server.Validate.{
  Result, ok, reject, ◌>>◌, throw_if, Operations, Updates, find_operation, no_id, duplicate_update,
  invalid_parent, multiple_execution, execution_not_last, error_too_large,
  max_error_payload_size_bytes, validate_valid_actions_by_operation_type,
  validate_operation_status_transition,
}

abbrev pub is_start : Option OperationAction → Bool
is_start (some start) = true
is_start _ = false

abbrev pub last_is_execution : List OperationUpdate → Bool
last_is_execution [] = false
last_is_execution (u ∷ []) = has_type execution u.type
last_is_execution (u ∷ v ∷ us) = last_is_execution (v ∷ us)

abbrev pub execution_updates : List OperationUpdate → List OperationUpdate
execution_updates = keep (λ u. has_type execution u.type)

unfoldable pub validate_conflicting_execution_update : List OperationUpdate → Result (Unit {0})
validate_conflicting_execution_update us = do
  throw_if (ltb 1 (length (execution_updates us))) multiple_execution
  throw_if (length (execution_updates us) == 1 && not (last_is_execution us)) execution_not_last

-- The `switch` on the type of the update seen last for this id.
abbrev pub allow_duplicate : OperationUpdate → OperationUpdate → Bool
allow_duplicate seen u =
    (has_type step seen.type || has_type context seen.type)
    && (is_start seen.action && not (is_start u.action))

unfoldable pub is_invalid_duplicate_update : Text → OperationUpdate → Updates → Bool
is_invalid_duplicate_update id u seen = elim (Map.get Text-discrete seen id) [
  | none ↦ false
  | some last ↦ not (allow_duplicate last u)
]

-- `parent_id` is the update's `ParentId`, where that is truthy.
unfoldable pub parent_is_context : Operations → Updates → Option Text → Bool
parent_is_context ops begun none = true
parent_is_context ops begun (some p) = elim (Map.get Text-discrete begun p) [
  | some parent ↦ has_type context parent.type
  | none ↦ elim (find_operation ops p) [ some op ↦ has_type context op.type | none ↦ false ]
]

unfoldable pub is_valid_parent_for_update : Operations → OperationUpdate → Updates → Bool
unfolding parent_is_context
is_valid_parent_for_update ops u begun = parent_is_context ops begun (present u.parent_id)

-- The loop of `validateParentIdAndDuplicateId`, with its two maps `operationsStarted` and
-- `lastUpdatesSeen`.
unfoldable pub check_ids : Operations → List OperationUpdate → Updates → Updates → Result (Unit {0})
check_ids ops [] begun seen = ok tt
check_ids ops (u ∷ us) begun seen = elim (present u.id) [
  | none ↦ reject no_id
  | some id ↦ elim (is_invalid_duplicate_update id u seen) [
    | true ↦ reject duplicate_update
    | false ↦ elim (is_valid_parent_for_update ops u begun) [
      | false ↦ reject invalid_parent
      | true ↦
          check_ids ops us (if is_start u.action then Map.set Text-discrete begun id u else begun)
            (Map.set Text-discrete seen id u)
    ]
  ]
]

unfoldable pub validate_parent_id_and_duplicate_id :
    List OperationUpdate → Operations → Result (Unit {0})
unfolding check_ids
validate_parent_id_and_duplicate_id us ops = check_ids ops us [] []

module _ (wire_size : OperationUpdate → ℕ) where
  unfoldable pub validate_payload_sizes : OperationUpdate → Result (Unit {0})
  validate_payload_sizes u =
      throw_if (is_some u.error && ltb max_error_payload_size_bytes (wire_size u)) error_too_large

  abbrev pub current_operation : OperationUpdate → Operations → Option Operation
  current_operation u ops = elim (present u.id) [ none ↦ none | some id ↦ find_operation ops id ]

  unfoldable pub validate_operation_update : OperationUpdate → Operations → Result (Unit {0})
  unfolding validate_payload_sizes validate_valid_actions_by_operation_type
      validate_operation_status_transition
  validate_operation_update u ops = do
    validate_payload_sizes u
    validate_valid_actions_by_operation_type u.type u.action
    validate_operation_status_transition u (current_operation u ops)

  unfoldable pub validate_each : List OperationUpdate → Operations → Result (Unit {0})
  validate_each [] ops = ok tt
  validate_each (u ∷ us) ops = do validate_operation_update u ops; validate_each us ops

  unfoldable pub validate_checkpoint_updates : List OperationUpdate → Operations → Result (Unit {0})
  unfolding validate_each
  validate_checkpoint_updates [] ops = ok tt
  validate_checkpoint_updates (u ∷ us) ops = do
    validate_conflicting_execution_update (u ∷ us)
    validate_parent_id_and_duplicate_id (u ∷ us) ops
    validate_each (u ∷ us) ops
