-- ===== src/Server/Storage/Register/Created.antt =====
-- checkpoint-server/storage/checkpoint-manager.ts: an accepted update that creates its operation,
-- and the theorem on accepted updates.
use aws_durable_execution_sd.Common.{
  ℕ, ◌+◌, length, ◌≡◌, refl, ◌≢◌, inl, inr, none, some, [], ◌∷◌, ◌++◌, Text, present, arith,
  Option-cases, ◌∙◌, ap,
}
use aws_durable_execution_sd.Common.Map
use aws_durable_execution_sd.Wire.{
  cancel, retry, start, pending, started, Operation, OperationUpdate,
}
use aws_durable_execution_sd.Server.Validate.Transitions.{
  Transition, create, stop, open_context, close_context, fail_context, end_execution,
  fail_execution, start_step, close_step, fail_step, retry_step, a_callback, an_invoke, a_wait,
}
use aws_durable_execution_sd.Server.Storage.Events.{Event, process_update}
use aws_durable_execution_sd.Server.Storage.{
  Store, OperationEvents, returns, new_array, set_operation, put_operation_update,
}
use aws_durable_execution_sd.Server.Storage.Register.{
  set_first_event, publish, create_by_type, started_operation, register_new, first_result,
}
use aws_durable_execution_sd.Server.Storage.Register.Applied.{
  status_after, publish_returns, has_event,
}

module _ (encode : Text → Text → Text → Text) (now : ℕ) (token : Text) where
  abbrev created : OperationUpdate → Text → Store → Operation × Store
  created u id s = create_by_type encode now token u id u.type (started_operation now u) s

  created_lem :
      (u : OperationUpdate) (id : Text) (s : Store)
      → Transition u none
      → u.action ≢ some cancel
      → ((created u id s).0.id ≡ u.id)
        × ((created u id s).0.type ≡ u.type)
        × ((created u id s).1.operation_data_map ≡ s.operation_data_map)
        × ((created u id s).1.pending_updates ≡ s.pending_updates)
        × (status_after u.action (created u id s).0.status ≡ status_after u.action (some started))
        × ((u.action ≡ some retry) → (created u id s).0.status ≡ some pending)
  unfolding create_by_type
  created_lem u id s (create k a_callback p q r) c = ground arith
  created_lem u id s (create k an_invoke p q r) c = ground arith
  created_lem u id s (create k a_wait p q r) c = ground arith
  created_lem u id s (stop k w b p q r v) c = ground arith
  created_lem u id s (open_context p q r) c = ground arith
  created_lem u id s (close_context p q r v) c = ground arith
  created_lem u id s (fail_context p q r v) c = ground arith
  created_lem u id s (end_execution p q r) c = ground arith
  created_lem u id s (fail_execution p q r) c = ground arith
  created_lem u id s (start_step p q r) c = ground arith
  created_lem u id s (close_step p q r v) c = ground arith
  created_lem u id s (fail_step p q r v) c = ground arith
  created_lem u id s (retry_step p q r v w) c = ground arith

  abbrev first_set : Operation → Store → OperationEvents
  first_set op s = record { operation = op; events = length s.event_arrays }

  abbrev with_first : Event → Store → Store
  with_first e s = record s {
    event_id = s.event_id + 1;
    event_arrays = s.event_arrays ++ (e ∷ []) ∷ [];
  }

  set_first_event-returns :
      (u : OperationUpdate) (id : Text) (op : Operation) (s1 : Store)
      → present op.id ≡ some id
      → op.type ≡ u.type
      → Transition u none
      → u.action ≢ some cancel
      → (d : OperationEvents) × (s' : Store) × (publish u
            (set_first_event encode now token id op (process_update now none u op s1.event_id) s1)
          ≡ (returns d, s'))
        × (d.operation ≡ op)
  unfolding set_first_event
  set_first_event-returns u id op s1 p t tr c =
      elim (Option-cases (process_update now none u op s1.event_id)) [
        | inl n ↦ absurd (has_event now s1.event_id none u none op tr c t n)
        | inr (e, h) ↦
            let d = first_set op s1 in
            let s2 = set_operation id d (with_first e s1) in
            (
              d,
              put_operation_update id
                  (record { operation = d.operation; events = d.events; update = some u }) s2,
              ap (λ o. publish u (set_first_event encode now token id op o s1)) h
                  ∙ publish_returns u d id s2 p,
              refl,
            )
      ]

  -- A START that creates its operation stores what `create_by_type` makes.
  pub register_new-started :
      (u : OperationUpdate) (id : Text) (s : Store)
      → present u.id ≡ some id
      → Transition u none
      → u.action ≡ some start
      → (d : OperationEvents) × (s' : Store) × (register_new encode now token u id s
          ≡ (returns d, s'))
        × (d.operation ≡ (created u id s).0)
  unfolding register_new new_array first_result
  register_new-started u id s p w q =
      let c : u.action ≢ some cancel = λ e. absurd (ground (arith, q, e)) in
      let facts = created_lem u id s w c in
      let (op, s1) = created u id s in
      let first : OperationEvents = record { operation = op; events = length s1.event_arrays } in
      let s2 : Store =
        set_operation id first (record s1 { event_arrays = s1.event_arrays ++ [] ∷ [] }) in
      let (d, s', e, k) = set_first_event-returns u id op s2 (ap present facts.0 ∙ p) facts.1 w c in
      (d, s', ap (λ a. publish u (first_result encode now token u id a op s2)) q ∙ e, k)
