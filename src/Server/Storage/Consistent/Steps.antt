-- ===== src/Server/Storage/Consistent/Steps.antt =====
-- checkpoint-server/storage: the calls that change a store, in any order, and what holds after them.
use aws_durable_execution_sd.Common.{ℕ, ◌≡◌, refl, Option, some, List, [], map, Text, present}
use aws_durable_execution_sd.Wire.{CallbackDetails, ErrorObject, Operation, OperationUpdate}
use aws_durable_execution_sd.Server.Storage.{
  Store, returns, get_operation_data, flush_update, new_store,
}
use aws_durable_execution_sd.Server.Storage.Session.{
  initialize, get_dirty_operations, start_invocation, complete_invocation, take_pending_updates,
  get_pending_checkpoint_updates, operation_of,
}
use aws_durable_execution_sd.Server.Storage.Callbacks.{
  CompleteCallbackStatus, complete_callback, heartbeat_callback, cleanup,
}
use aws_durable_execution_sd.Server.Storage.Callbacks.Kept.{
  complete_callback-IsConsistent, heartbeat_callback-IsConsistent,
}
use aws_durable_execution_sd.Server.Storage.Register.{register_updates}
use aws_durable_execution_sd.Server.Storage.Register.Kept.{register_updates-IsConsistent}
use aws_durable_execution_sd.Server.Storage.Update.{update_operation}
use aws_durable_execution_sd.Server.Storage.Update.Kept.{
  KeepsIdentity, update_operation-IsConsistent,
}
use aws_durable_execution_sd.Server.Storage.Session.Kept.{
  initialize-IsConsistent, get_dirty_operations-IsConsistent, complete_invocation-IsConsistent,
  get_pending_checkpoint_updates-IsConsistent, get_dirty_operations_returns,
}
use aws_durable_execution_sd.Server.Storage.Consistent.{
  IsConsistent, same-IsConsistent, drained-IsConsistent, empty-IsConsistent,
}

module _ (encode : Text → Text → Text → Text) (decode : Text → Option Text) where
  -- One call of the store, whether it returns or throws.
  pub data Step (s : Store) : Store → Type 0 where
    initializes :
        (now : ℕ) (id : Text) (payload : Option Text)
        → present (some id) ≡ some id
        → Step s (initialize now id payload s).1
    begins_invocation : (now : ℕ) (id : Text) → Step s (start_invocation now id s).1
    ends_invocation : (id : Text) → Step s (complete_invocation id s).1
    registers :
        (now : ℕ) (token : Text) (us : List OperationUpdate)
        → Step s (register_updates encode now token us s).1
    answers : Step s (get_dirty_operations s).1
    updates :
        (now : ℕ) (id : Text) (new : Operation) (payload : Option Text) (error : Option ErrorObject)
        → KeepsIdentity new
        → Step s (update_operation now id new payload error s).1
    completes_callback :
        (now : ℕ) (details : CallbackDetails) (status : CompleteCallbackStatus)
        → Step s (complete_callback decode now details status s).1
    beats : (now : ℕ) (callback_id : Text) → Step s (heartbeat_callback decode now callback_id s).1
    polls : Step s (get_pending_checkpoint_updates s).1
    takes : Step s (take_pending_updates s).1
    flushes : Step s (flush_update s)
    cleans_up : Step s (cleanup s)

  -- The stores of an execution.
  pub data Reached (execution_id : Text) : Store → Type 0 where
    fresh : Reached execution_id (new_store execution_id)
    after : (s s' : Store) → Reached execution_id s → Step s s' → Reached execution_id s'

  Step-IsConsistent : (s s' : Store) → Step s s' → IsConsistent s → IsConsistent s'
  unfolding start_invocation take_pending_updates flush_update cleanup
  Step-IsConsistent s _ (initializes now id payload p) h =
      initialize-IsConsistent now id payload s p h
  Step-IsConsistent s _ (begins_invocation now id) h = drained-IsConsistent s _ refl refl h
  Step-IsConsistent s _ (ends_invocation id) h = complete_invocation-IsConsistent id s h
  Step-IsConsistent s _ (registers now token us) h =
      register_updates-IsConsistent encode now token us s h
  Step-IsConsistent s _ answers h = get_dirty_operations-IsConsistent s h
  Step-IsConsistent s _ (updates now id new payload error k) h =
      update_operation-IsConsistent now s h id new payload error k
  Step-IsConsistent s _ (completes_callback now details status) h =
      complete_callback-IsConsistent decode now details status s h
  Step-IsConsistent s _ (beats now callback_id) h =
      heartbeat_callback-IsConsistent decode now callback_id s h
  Step-IsConsistent s _ polls h = get_pending_checkpoint_updates-IsConsistent s h
  Step-IsConsistent s _ takes h = same-IsConsistent s _ refl refl h
  Step-IsConsistent s _ flushes h = same-IsConsistent s _ refl refl h
  Step-IsConsistent s _ cleans_up h = empty-IsConsistent _ refl refl

  -- However calls of the store follow one another, throwing or not, each operation is held under its
  -- own id, which is not empty, only a wait has a scheduled end, and each id that is marked as changed
  -- is that of a held operation. Calls of `updateOperation` leave ids, types and wait details alone.
  pub Reached-IsConsistent :
      (execution_id : Text) (s : Store) → Reached execution_id s → IsConsistent s
  Reached-IsConsistent execution_id _ fresh = empty-IsConsistent _ refl refl
  Reached-IsConsistent execution_id s' (after s _ r t) =
      Step-IsConsistent s s' t (Reached-IsConsistent execution_id s r)

  -- In every store that calls of the store lead to, the answer to a checkpoint request does not
  -- throw: it has the operation of each changed id, in the order of the changes, and no id stays
  -- marked.
  pub Reached-answers :
      (execution_id : Text) (s : Store)
      → Reached execution_id s
      → (ops : List Operation) × (get_dirty_operations s
          ≡ (returns ops, record s { dirty_operation_ids = [] }))
        × (map (λ id. operation_of (get_operation_data s id)) s.dirty_operation_ids ≡ map some ops)
  Reached-answers execution_id s r =
      get_dirty_operations_returns s (Reached-IsConsistent execution_id s r)
