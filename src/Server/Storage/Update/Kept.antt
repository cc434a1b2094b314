-- ===== src/Server/Storage/Update/Kept.antt =====
-- checkpoint-server/storage/checkpoint-manager.ts: `updateOperation` keeps the store consistent, also
-- where it throws.
use aws_durable_execution_sd.Common.{ℕ, ◌≡◌, refl, Option, none, some, Text, ap, arith, if-either}
use aws_durable_execution_sd.Wire.{
  OperationType, execution, wait, chained_invoke, OperationStatus, ErrorObject, Operation,
}
use aws_durable_execution_sd.Server.Storage.Events.{EventType}
use aws_durable_execution_sd.Server.Storage.{
  Store, OperationEvents, CheckpointOperation, Outcome, returns, throws, get_operation_data,
  add_operation_update,
}
use aws_durable_execution_sd.Server.Storage.Consistent.{
  OnlyWaitEnds, IsConsistent, same-IsConsistent, add_operation_update-IsConsistent,
}
use aws_durable_execution_sd.Server.Storage.Update.{
  merge, update_operation, update_found, update_with, update_by_type, update_wait, update_invoke,
  update_execution, publish, after_add, wait_history_details, chained_invoke_history_details,
  execution_history_details,
}

-- The partial operation has no id, type or end of its own.
abbrev pub KeepsIdentity : Operation → Type 0
KeepsIdentity new = (new.id ≡ none) × (new.type ≡ none) × (new.wait_details ≡ none)

after_add_store : (d : OperationEvents) (r : Outcome (Unit {0}) × Store) → (after_add d r).1 ≡ r.1
unfolding after_add
after_add_store d (returns x, s) = refl
after_add_store d (throws f, s) = refl

publish-IsConsistent :
    (d : OperationEvents) (s s' : Store)
    → s'.operation_data_map ≡ s.operation_data_map
    → s'.dirty_operation_ids ≡ s.dirty_operation_ids
    → OnlyWaitEnds d.operation
    → IsConsistent s
    → IsConsistent (publish d s').1
unfolding publish
publish-IsConsistent d s s' e f w h =
    let c : CheckpointOperation = record {
      operation = d.operation;
      events = d.events;
      update = none;
    } in
    same-IsConsistent (add_operation_update c s').1 _
      (ap (λ t. t.operation_data_map) (after_add_store d (add_operation_update c s')))
      (ap (λ t. t.dirty_operation_ids) (after_add_store d (add_operation_update c s')))
      (add_operation_update-IsConsistent c s' w (same-IsConsistent s s' e f h))

merge-OnlyWaitEnds :
    (op new : Operation) → KeepsIdentity new → OnlyWaitEnds op → OnlyWaitEnds (merge op new)
merge-OnlyWaitEnds op new k w = ground arith

module _ (now : ℕ) (s : Store) (h : IsConsistent s) where
  update_wait-IsConsistent :
      (t : Option EventType) (d : OperationEvents)
      → OnlyWaitEnds d.operation
      → IsConsistent (update_wait now t d s).1
  unfolding update_wait
  update_wait-IsConsistent none d w = h
  update_wait-IsConsistent (some t) d w = publish-IsConsistent d s _ refl refl w h

  update_invoke-IsConsistent :
      (t : Option EventType) (d : OperationEvents)
      → OnlyWaitEnds d.operation
      → IsConsistent (update_invoke now t d s).1
  unfolding update_invoke
  update_invoke-IsConsistent none d w = h
  update_invoke-IsConsistent (some t) d w =
      if-either (λ (r : Outcome OperationEvents × Store). IsConsistent r.1) _ _ _ h
        (publish-IsConsistent d s _ refl refl w h)

  update_execution-IsConsistent :
      (payload : Option Text) (error : Option ErrorObject) (t : Option EventType)
      → (d : OperationEvents) → OnlyWaitEnds d.operation
      → IsConsistent (update_execution now payload error t d s).1
  unfolding update_execution
  update_execution-IsConsistent payload error none d w = h
  update_execution-IsConsistent payload error (some t) d w =
      publish-IsConsistent d s _ refl refl w h

  update_by_type-IsConsistent :
      (t : Option OperationType) (status : OperationStatus) (payload : Option Text)
      → (error : Option ErrorObject) (d : OperationEvents) → OnlyWaitEnds d.operation
      → IsConsistent (update_by_type now t status payload error d s).1
  unfolding update_by_type
  update_by_type-IsConsistent (some wait) status payload error d w =
      update_wait-IsConsistent (wait_history_details status) d w
  update_by_type-IsConsistent (some chained_invoke) status payload error d w =
      update_invoke-IsConsistent (chained_invoke_history_details status) d w
  update_by_type-IsConsistent (some execution) status payload error d w =
      update_execution-IsConsistent payload error (execution_history_details status) d w
  update_by_type-IsConsistent t status payload error d w = publish-IsConsistent d s s refl refl w h

  update_with-IsConsistent :
      (new : Operation) (payload : Option Text) (error : Option ErrorObject)
      → (status : Option OperationStatus) (d : OperationEvents) → KeepsIdentity new
      → OnlyWaitEnds d.operation
      → IsConsistent (update_with now new payload error status d s).1
  unfolding update_with
  update_with-IsConsistent new payload error none d k w = h
  update_with-IsConsistent new payload error (some status) d k w =
      let merged : OperationEvents = record {
        operation = merge d.operation new;
        events = d.events;
      } in
      if-either (λ (r : Outcome OperationEvents × Store). IsConsistent r.1) _ _ _
        (publish-IsConsistent d s s refl refl w h)
        (update_by_type-IsConsistent merged.operation.type status payload error merged
          (merge-OnlyWaitEnds d.operation new k w))

  pub update_operation-IsConsistent :
      (id : Text) (new : Operation) (payload : Option Text) (error : Option ErrorObject)
      → KeepsIdentity new
      → IsConsistent (update_operation now id new payload error s).1
  unfolding update_operation
  update_operation-IsConsistent id new payload error k = go (get_operation_data s id) refl
    where
      go :
          (d : Option OperationEvents)
          → get_operation_data s id ≡ d
          → IsConsistent (update_found now new payload error d s).1
      go none e = h
      go (some d) e = update_with-IsConsistent new payload error new.status d k (h.entries id d e).1
