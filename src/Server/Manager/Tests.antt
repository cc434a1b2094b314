-- ===== src/Server/Manager/Tests.antt =====
-- Examples of an execution on the checkpoint server.
use mathlib.Core.Bool.{decide}
use aws_durable_execution_sd.Common.{
  ℕ, ◌≡◌, refl, true, Option, none, some, List, [], ◌∷◌, map, Text, Text-discrete, codes, arith,
  contains, subst,
}
use aws_durable_execution_sd.Common.Map
use aws_durable_execution_sd.Wire.{
  Operation, OperationUpdate, OperationType, OperationType-discrete, OperationStatus-discrete, step,
  context, OperationAction, start, OperationStatus, succeeded,
}
use aws_durable_execution_sd.Server.Storage.{
  Store, OperationEvents, returns, new_store, get_operation_data,
}
use aws_durable_execution_sd.Server.Storage.Session.{get_dirty_operations, operation_of}
use aws_durable_execution_sd.Server.Storage.Consistent.{IsConsistent}
use aws_durable_execution_sd.Server.Storage.Consistent.Steps.{
  Reached, fresh, after, registers, Reached-IsConsistent, Reached-answers,
}
use aws_durable_execution_sd.Server.Storage.State.{get_state}
use aws_durable_execution_sd.Server.Storage.State.Hidden.{Shows, get_state-Shows}
use aws_durable_execution_sd.Server.Storage.Register.{register_updates}
use aws_durable_execution_sd.Server.Manager.{answer_request, fails, RequestFailure}
use aws_durable_execution_sd.Server.Manager.Answered.{without_token, answer_request-refuses}

abbrev update : Text → Option Text → OperationType → OperationAction → OperationUpdate
update id parent t a = record {
  id = some id;
  parent_id = parent;
  name = none;
  type = some t;
  sub_type = none;
  action = some a;
  payload = none;
  error = none;
  context_options = none;
  step_options = none;
  wait_options = none;
  callback_options = none;
  chained_invoke_options = none;
}

abbrev operation : Text → Option Text → OperationType → OperationStatus → OperationEvents
operation id parent t s = record {
  operation = record {
    id = some id;
    parent_id = parent;
    name = none;
    type = some t;
    sub_type = none;
    start_timestamp = some 0;
    end_timestamp = none;
    status = some s;
    execution_details = none;
    context_details = none;
    step_details = none;
    wait_details = none;
    callback_details = none;
    chained_invoke_details = none;
  };
  events = 0;
}

abbrev step_a : OperationUpdate
step_a = update (codes "a") none step start

abbrev empty_store : Store
empty_store = new_store (codes "run")

abbrev encode : Text → Text → Text → Text
encode e o t = o

abbrev decode : Text → Option Text
decode c = some c

abbrev decode_token : Text → Option (Text × Text)
decode_token t = some (t, t)

abbrev no_size : OperationUpdate → ℕ
no_size u = 0

answer_request-refuses_example :
    (f : RequestFailure) × (answer_request no_size encode encode decode_token 5 [] [] none
        (step_a ∷ [])
        empty_store
      ≡ (fails f, empty_store))
answer_request-refuses_example =
    answer_request-refuses no_size encode encode decode_token 5 [] [] none (step_a ∷ []) empty_store
      (without_token refl)

-- The store after the start of one step.
abbrev store_a : Store
store_a = (register_updates encode 5 [] (step_a ∷ []) empty_store).1

reached_a : Reached encode decode (codes "run") store_a
reached_a = after empty_store store_a fresh (registers 5 [] (step_a ∷ []))

Reached-IsConsistent_example : IsConsistent store_a
Reached-IsConsistent_example = Reached-IsConsistent encode decode (codes "run") store_a reached_a

Reached-answers_example :
    (ops : List Operation) × (get_dirty_operations store_a
      ≡ (returns ops, record store_a { dirty_operation_ids = [] }))
    × (map (λ id. operation_of (get_operation_data store_a id)) store_a.dirty_operation_ids
        ≡ map some ops)
Reached-answers_example = Reached-answers encode decode (codes "run") store_a reached_a

-- A finished context with one step in it.
abbrev nested_store : Store
nested_store = record empty_store {
  operation_data_map =
      (codes "c", operation (codes "c") none context succeeded)
      ∷ (codes "s", operation (codes "s") (some (codes "c")) step succeeded)
      ∷ [];
}

within : (p : Text) → codes "c" ≡ p → contains (codes "c" ∷ []) p ≡ true
unfolding Text-discrete decide
within p e = subst (λ q. contains (codes "c" ∷ []) q ≡ true) e refl

get_state-Shows_example :
    Shows nested_store.operation_data_map nested_store.operation_data_map (get_state nested_store)
unfolding Map.get Text-discrete decide
get_state-Shows_example =
    get_state-Shows nested_store (
      λ p e n. absurd (ground arith),
      refl,
      refl,
      (λ p e n. within p (ground arith), refl, refl, tt),
    )

-- Of the two, an invocation is given the context alone.
nested_state :
    get_state nested_store ≡ (operation (codes "c") none context succeeded).operation ∷ []
unfolding get_state Map.get Text-discrete OperationType-discrete OperationStatus-discrete
nested_state = refl
