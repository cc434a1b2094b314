-- ===== src/Server/Storage/Register/Kept.antt =====
-- checkpoint-server/storage/checkpoint-manager.ts: registering updates keeps the store consistent, also
-- where it throws.
use aws_durable_execution_sd.Common.{
  ℕ, ◌≡◌, refl, inl, true, false, Option, none, some, List, [], ◌∷◌, Text, present, ap, ◌∙◌, sym,
  arith, length, if◌then◌else◌, subst, ◌++◌,
}
use aws_durable_execution_sd.Wire.{OperationAction, succeed, fail, Operation, OperationUpdate}
use aws_durable_execution_sd.Server.Storage.Events.{Event, process_update}
use aws_durable_execution_sd.Server.Storage.{
  Store, OperationEvents, CheckpointOperation, Outcome, returns, throws, get_operation_data,
  new_array, set_operation, add_operation_update, invalid_checkpoint_token,
}
use aws_durable_execution_sd.Server.Storage.Consistent.{
  OnlyWaitEnds, IsConsistent, same-IsConsistent, set-IsConsistent,
  add_operation_update-IsConsistent,
}
use aws_durable_execution_sd.Server.Storage.Register.{
  completed_operation, complete_operation, complete_with, complete_found, complete_present, publish,
  after_add, scheduled_end, register_existing, register_by_end, create_by_type, started_operation,
  set_first_event, first_result, register_new, register_found, register_present, redirect,
  register_update, register_each, register_updates, register_next, put_first,
}

-- The store of an outcome is consistent, and a record that is returned may be stored.
abbrev IsKept : Outcome OperationEvents × Store → Type 0
IsKept (throws f, s) = IsConsistent s
IsKept (returns d, s) = IsConsistent s × OnlyWaitEnds d.operation

after_add_store : (d : OperationEvents) (r : Outcome (Unit {0}) × Store) → (after_add d r).1 ≡ r.1
after_add_store d (returns x, s) = refl
after_add_store d (throws f, s) = refl

publish-IsConsistent :
    (u : OperationUpdate) (r : Outcome OperationEvents × Store)
    → IsKept r
    → IsConsistent (publish u r).1
unfolding publish
publish-IsConsistent u (throws f, s) h = h
publish-IsConsistent u (returns d, s) (h, w) =
    let c : CheckpointOperation = record {
      operation = d.operation;
      events = d.events;
      update = some u;
    } in
    same-IsConsistent (add_operation_update c s).1 _
      (ap (λ t. t.operation_data_map) (after_add_store d (add_operation_update c s)))
      (ap (λ t. t.dirty_operation_ids) (after_add_store d (add_operation_update c s)))
      (add_operation_update-IsConsistent c s w h)

completed_operation-keeps :
    (now : ℕ) (u : OperationUpdate) (o : Operation)
    → ((completed_operation now u o).type ≡ o.type)
      × ((completed_operation now u o).wait_details ≡ o.wait_details)
unfolding completed_operation
completed_operation-keeps now u o = ground arith

complete_with-IsKept :
    (now : ℕ) (u : OperationUpdate) (d : OperationEvents) (e : Option Event) (s : Store)
    → OnlyWaitEnds d.operation
    → IsConsistent s
    → IsKept (complete_with now u d e s)
unfolding complete_with new_array
complete_with-IsKept now u d none s w h = h
complete_with-IsKept now u d (some e) s w h =
    let kept = completed_operation-keeps now u d.operation in
    (same-IsConsistent s _ refl refl h, ground arith)

complete_operation-IsKept :
    (now : ℕ) (u : OperationUpdate) (s : Store)
    → IsConsistent s
    → IsKept (complete_operation now u s)
unfolding complete_operation
complete_operation-IsKept now u s h = go (present u.id)
  where
    found :
        (id : Text) (d : Option OperationEvents)
        → get_operation_data s id ≡ d
        → IsKept (complete_found now u d s)
    found id none e = h
    found id (some d) e =
        complete_with-IsKept now u d (process_update now none u d.operation s.event_id) s
          (h.entries id d e).1 h

    go : (o : Option Text) → IsKept (complete_present now u o s)
    go none = h
    go (some id) = found id (get_operation_data s id) refl

register_existing-IsConsistent :
    (now : ℕ) (u : OperationUpdate) (d : OperationEvents) (s : Store)
    → OnlyWaitEnds d.operation
    → IsConsistent s
    → IsConsistent (register_existing now u d s).1
unfolding register_existing
register_existing-IsConsistent now u d s w h = go (scheduled_end d.operation)
  where
    go : (o : Option ℕ) → IsConsistent (register_by_end now u d s o).1
    go none =
        publish-IsConsistent u (complete_operation now u s) (complete_operation-IsKept now u s h)
    go (some t) = publish-IsConsistent u (returns d, s) (h, w)

module _ (encode : Text → Text → Text → Text) (now : ℕ) (token : Text) where
  create_by_type_lem :
      (u : OperationUpdate) (id : Text) (s : Store)
      → let (op, s') = create_by_type encode now token u id u.type (started_operation now u) s in
        (op.id ≡ u.id)
        × OnlyWaitEnds op
        × (s'.operation_data_map ≡ s.operation_data_map)
        × (s'.dirty_operation_ids ≡ s.dirty_operation_ids)
  unfolding create_by_type
  create_by_type_lem u id s = ground arith

  set_first_event-IsKept :
      (id : Text) (op : Operation) (e : Option Event) (s : Store)
      → present op.id ≡ some id
      → OnlyWaitEnds op
      → IsConsistent s
      → IsKept (set_first_event encode now token id op e s)
  unfolding set_first_event new_array
  set_first_event-IsKept id op none s p w h = h
  set_first_event-IsKept id op (some e) s p w h = (
    set-IsConsistent id (record { operation = op; events = length s.event_arrays }) s _ refl
        (inl refl) p w h,
    w,
  )

  first_result-IsKept :
      (u : OperationUpdate) (id : Text) (a : Option OperationAction) (op : Operation) (s : Store)
      → present op.id ≡ some id
      → OnlyWaitEnds op
      → IsConsistent s
      → IsKept (first_result encode now token u id a op s)
  unfolding first_result
  first_result-IsKept u id (some succeed) op s p w h = complete_operation-IsKept now u s h
  first_result-IsKept u id (some fail) op s p w h = complete_operation-IsKept now u s h
  first_result-IsKept u id a op s p w h =
      set_first_event-IsKept id op (process_update now none u op s.event_id) s p w h

  register_new-IsConsistent :
      (u : OperationUpdate) (id : Text) (s : Store)
      → present u.id ≡ some id
      → IsConsistent s
      → IsConsistent (register_new encode now token u id s).1
  unfolding register_new new_array
  register_new-IsConsistent u id s p h =
      let facts = create_by_type_lem u id s in
      let (op, s1) = create_by_type encode now token u id u.type (started_operation now u) s in
      let d : OperationEvents = record { operation = op; events = length s1.event_arrays } in
      let s2 : Store = record s1 { event_arrays = s1.event_arrays ++ [] ∷ [] } in
      let q = ap present facts.0 ∙ p in
      publish-IsConsistent u
        (first_result encode now token u id u.action op (set_operation id d s2))
        (first_result-IsKept u id u.action op (set_operation id d s2) q facts.1 (
          set-IsConsistent id d s2 _ refl (inl refl) q facts.1
            (same-IsConsistent s s2 facts.2 facts.3 h)))

  pub register_update-IsConsistent :
      (u : OperationUpdate) (s : Store)
      → IsConsistent s
      → IsConsistent (register_update encode now token u s).1
  unfolding register_update
  register_update-IsConsistent u s h = go (present v.id) refl
    where
      v : OperationUpdate
      v = redirect encode now token s.execution_operation_id u

      found :
          (id : Text) (d : Option OperationEvents)
          → present v.id ≡ some id
          → get_operation_data s id ≡ d
          → IsConsistent (register_found encode now token v id d s).1
      found id none p e = register_new-IsConsistent v id s p h
      found id (some d) p e = register_existing-IsConsistent now v d s (h.entries id d e).1 h

      go :
          (o : Option Text)
          → present v.id ≡ o
          → IsConsistent (register_present encode now token v o s).1
      go none p = h
      go (some id) p = found id (get_operation_data s id) p refl

  put_first_store :
      (d : OperationEvents) (r : Outcome (List OperationEvents) × Store) → (put_first d r).1 ≡ r.1
  put_first_store d (returns x, s) = refl
  put_first_store d (throws f, s) = refl

  register_each-IsConsistent :
      (us : List OperationUpdate) (s : Store)
      → IsConsistent s
      → IsConsistent (register_each encode now token us s).1
  unfolding register_each
  register_each-IsConsistent [] s h = h
  register_each-IsConsistent (u ∷ us) s h =
      go (register_update encode now token u s) (register_update-IsConsistent u s h)
        (register_each-IsConsistent us)
    where
      go :
          (r : Outcome OperationEvents × Store)
          → IsConsistent r.1
          → ((t : Store) → IsConsistent t → IsConsistent (register_each encode now token us t).1)
          → IsConsistent (register_next encode now token r (register_each encode now token us)).1
      go (throws f, s') k rest = k
      go (returns d, s') k rest =
          subst IsConsistent (sym (put_first_store d (register_each encode now token us s')))
            (rest s' k)

  pub register_updates-IsConsistent :
      (us : List OperationUpdate) (s : Store)
      → IsConsistent s
      → IsConsistent (register_updates encode now token us s).1
  unfolding register_updates
  register_updates-IsConsistent us s h =
      elim s.is_execution_completed
        as (λ b.
          IsConsistent
            (if b
              then (throws invalid_checkpoint_token, s)
              else register_each encode now token us s).1) [
                | true ↦ h
                | false ↦ register_each-IsConsistent us s h
              ]
