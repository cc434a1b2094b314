-- ===== src/Server/Storage/State.antt =====
-- checkpoint-server/storage/checkpoint-manager.ts: `getState`, the operations that an invocation is
-- given. The children of a finished context that is not to be replayed are left out.
pub mod Hidden
use aws_durable_execution_sd.Common.{
  Bool, true, false, not, ◌&&◌, ◌||◌, Option, none, some, List, [], ◌∷◌, ◌++◌, Text, Text-discrete,
  present, contains,
}
use aws_durable_execution_sd.Common.Map
use aws_durable_execution_sd.Wire.{
  context, succeeded, failed, ContextDetails, Operation, has_type, has_status,
}
use aws_durable_execution_sd.Server.Storage.{Store, OperationEvents}

abbrev pub replays_children : Option ContextDetails → Bool
replays_children none = false
replays_children (some d) = elim d.replay_children [ none ↦ false | some b ↦ b ]

abbrev pub is_finished_context : Operation → Bool
is_finished_context op =
    has_type context op.type && (has_status succeeded op.status || has_status failed op.status)

-- The test on the parent, with the ids that are excluded already.
abbrev pub parent_hides : Option OperationEvents → List Text → Text → Bool
parent_hides none excluded parent = false
parent_hides (some p) excluded parent =
    is_finished_context p.operation
    && (not (replays_children p.operation.context_details) || contains excluded parent)

abbrev pub is_excluded : List (Text × OperationEvents) → List Text → Operation → Bool
is_excluded ops excluded op = elim (present op.parent_id) [
  | none ↦ false
  | some parent ↦ parent_hides (Map.get Text-discrete ops parent) excluded parent
]

-- The loop over the entries that are left, with `excludedOperations`.
unfoldable pub state_loop :
    List (Text × OperationEvents) → List (Text × OperationEvents) → List Text → List Operation
state_loop ops [] excluded = []
state_loop ops ((id, d) ∷ rest) excluded = elim (is_excluded ops excluded d.operation) [
  | true ↦ state_loop ops rest (id ∷ excluded)
  | false ↦ d.operation ∷ state_loop ops rest excluded
]

unfoldable pub get_state : Store → List Operation
unfolding state_loop
get_state s = state_loop s.operation_data_map s.operation_data_map []
