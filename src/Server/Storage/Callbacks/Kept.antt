-- ===== src/Server/Storage/Callbacks/Kept.antt =====
-- checkpoint-server/storage/callback-manager.ts: callbacks keep the store consistent, also where they
-- throw.
use aws_durable_execution_sd.Common.{ℕ, ◌≡◌, refl, Option, none, some, Text, present, ap, arith}
use aws_durable_execution_sd.Wire.{OperationStatus, CallbackDetails, Operation}
use aws_durable_execution_sd.Server.Storage.{
  Store, OperationEvents, CheckpointOperation, Outcome, returns, throws, get_operation_data,
  add_operation_update, mark_operation_completed,
}
use aws_durable_execution_sd.Server.Storage.Consistent.{
  OnlyWaitEnds, IsConsistent, same-IsConsistent, add_operation_update-IsConsistent,
}
use aws_durable_execution_sd.Server.Storage.Callbacks.{
  CompleteCallbackStatus, complete_callback, complete_found, complete_decoded, complete_present,
  after_add, heartbeat_callback,
}

after_add_store : (d : OperationEvents) (r : Outcome (Unit {0}) × Store) → (after_add d r).1 ≡ r.1
after_add_store d (returns x, s) = refl
after_add_store d (throws f, s) = refl

after_add-IsConsistent :
    (d : OperationEvents) (c : CheckpointOperation) (s : Store)
    → OnlyWaitEnds c.operation
    → IsConsistent s
    → IsConsistent (after_add d (add_operation_update c s)).1
after_add-IsConsistent d c s w h =
    same-IsConsistent (add_operation_update c s).1 _
      (ap (λ t. t.operation_data_map) (after_add_store d (add_operation_update c s)))
      (ap (λ t. t.dirty_operation_ids) (after_add_store d (add_operation_update c s)))
      (add_operation_update-IsConsistent c s w h)

mark_operation_completed-OnlyWaitEnds :
    (now : ℕ) (op : Operation) (status : OperationStatus) (c : Option CallbackDetails)
    → OnlyWaitEnds op
    → OnlyWaitEnds (record (mark_operation_completed now op status) { callback_details = c })
unfolding mark_operation_completed
mark_operation_completed-OnlyWaitEnds now op status c w = ground arith

module _ (decode : Text → Option Text) (now : ℕ) where
  pub complete_callback-IsConsistent :
      (details : CallbackDetails) (status : CompleteCallbackStatus) (s : Store)
      → IsConsistent s
      → IsConsistent (complete_callback decode now details status s).1
  unfolding complete_callback
  complete_callback-IsConsistent details status s h = go (present details.callback_id)
    where
      found :
          (callback_id id : Text) (d : Option OperationEvents)
          → get_operation_data s id ≡ d
          → IsConsistent (complete_found decode now callback_id details status d s).1
      found callback_id id none e = h
      found callback_id id (some d) e =
          after_add-IsConsistent _ _ _
            (mark_operation_completed-OnlyWaitEnds now d.operation _ (some details)
              (h.entries id d e).1)
            (same-IsConsistent s _ refl refl h)

      decoded :
          (callback_id : Text) (o : Option Text)
          → IsConsistent (complete_decoded decode now callback_id details status o s).1
      decoded callback_id none = h
      decoded callback_id (some id) = found callback_id id (get_operation_data s id) refl

      go : (o : Option Text) → IsConsistent (complete_present decode now o details status s).1
      go none = h
      go (some callback_id) = decoded callback_id (decode callback_id)

  pub heartbeat_callback-IsConsistent :
      (callback_id : Text) (s : Store)
      → IsConsistent s
      → IsConsistent (heartbeat_callback decode now callback_id s).1
  unfolding heartbeat_callback
  heartbeat_callback-IsConsistent callback_id s h =
      same-IsConsistent s _ (ground arith) (ground arith) h
