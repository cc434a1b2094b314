-- ===== src/Step/Stored.antt =====
-- checkpoint-server/storage/checkpoint-manager.ts: what `registerUpdate` stores for an update of a
-- step, as the server that the handler of steps relies on. `stored` is the operation of its result,
-- without the store around it, for a step that a START creates and for one that is held.
use aws_durable_execution_sd.Common.{
  present, ◌≢◌, ℕ, ◌+◌, ◌≡◌, refl, inl, inr, Option, none, some, Text, arith,
}
use aws_durable_execution_sd.Wire.{
  step, pending, ready, OperationAction, cancel, start, succeed, fail, retry, Operation,
  OperationUpdate, OperationStatus-discrete,
}
use aws_durable_execution_sd.Server.Storage.{Store, OperationEvents, returns, get_operation_data}
use aws_durable_execution_sd.Server.Storage.Register.Applied.{Meets, register_existing-completed}
use aws_durable_execution_sd.Server.Validate.{validate_operation_status_transition}
use aws_durable_execution_sd.Server.Validate.Transitions.{
  IsOpen, validate_operation_status_transition_iff,
}
use aws_durable_execution_sd.Server.Storage.Register.{
  register_existing, register_new, create_by_type, started_operation, completed_operation,
}
use aws_durable_execution_sd.Server.Storage.Register.Created.{register_new-started}
use aws_durable_execution_sd.Step.{attempts_of}
use aws_durable_execution_sd.Step.Protocol.{Serves, StepAccepted}

-- The operation once its retry timer has run out.
abbrev pub made_ready : Operation → Operation
made_ready o = record o { status = some ready }

module _ (encode : Text → Text → Text → Text) (now : ℕ) (token id : Text) (s : Store) where
  abbrev completed_first : OperationUpdate → Option OperationAction → Operation → Operation
  completed_first u (some succeed) o = completed_operation now u o
  completed_first u (some fail) o = completed_operation now u o
  completed_first u _ o = o

  -- The operation of `registerUpdate`'s result: of an operation that it creates, as `first_result`
  -- does, or of one that it completes.
  unfoldable pub stored : OperationUpdate → Option Operation → Operation
  unfolding create_by_type completed_operation
  stored u none =
      completed_first u u.action
        (create_by_type encode now token u id u.type (started_operation now u) s).0
  stored u (some o) = completed_operation now u o

  stored_type :
      (u : OperationUpdate) (o : Option Operation)
      → StepAccepted u o
      → (stored u o).type ≡ some step
  unfolding stored
  stored_type u none (t, k, a) = ground (arith, t)
  stored_type u (some o) (t, k, a) = ground (arith, t, k)

  ready_before :
      (u : OperationUpdate) (o : Operation)
      → StepAccepted u (some o)
      → u.action ≡ some start
      → o.status ≡ some ready
  unfolding validate_operation_status_transition OperationStatus-discrete
  ready_before u o (t, k, a) p = ground (arith, t, p, a)

  -- A READY step stays READY.
  stored-start_status :
      (u : OperationUpdate) (o : Option Operation)
      → StepAccepted u o
      → u.action ≡ some start
      → IsOpen (stored u o).status
  unfolding stored
  stored-start_status u none (t, k, a) p = inl (ground (arith, t, p))
  stored-start_status u (some o) (t, k, a) p =
      let r = ready_before u o (t, k, a) p in inr (ground (arith, t, k, p, r))

  stored-start_attempts :
      (u : OperationUpdate) (o : Option Operation)
      → StepAccepted u o
      → u.action ≡ some start
      → attempts_of (some (stored u o)) ≡ attempts_of o
  unfolding stored
  stored-start_attempts u none (t, k, a) p = ground (arith, t, p)
  stored-start_attempts u (some o) (t, k, a) p = ground (arith, t, k, p)

  stored-retry_status :
      (u : OperationUpdate) (o : Option Operation)
      → StepAccepted u o
      → u.action ≡ some retry
      → (stored u o).status ≡ some pending
  unfolding stored
  stored-retry_status u none (t, k, a) p = ground (arith, t, p)
  stored-retry_status u (some o) (t, k, a) p = ground (arith, t, k, p)

  stored-retry_attempts :
      (u : OperationUpdate) (o : Option Operation)
      → StepAccepted u o
      → u.action ≡ some retry
      → attempts_of (some (stored u o)) ≡ attempts_of o + 1
  unfolding stored
  stored-retry_attempts u none (t, k, a) p = ground (arith, t, p)
  stored-retry_attempts u (some o) (t, k, a) p = ground (arith, t, k, p)

  -- The checkpoint server serves a step as its handler expects, with timers that make it ready.
  pub stored-Serves : Serves stored made_ready
  stored-Serves = record {
    server_type = stored_type;
    start_status = stored-start_status;
    start_attempts = stored-start_attempts;
    retry_status = stored-retry_status;
    retry_attempts = stored-retry_attempts;
    timer_type = λ o. refl;
    timer_status = λ o p. refl;
    timer_attempts = λ o. refl;
  }

  -- A held step that takes an accepted update has then what `stored` says.
  pub register_existing-stored :
      (u : OperationUpdate) (t : Store) (d : OperationEvents)
      → present u.id ≡ some id
      → get_operation_data t id ≡ some d
      → Meets u id d
      → StepAccepted u (some d.operation)
      → u.action ≢ some cancel
      → (e : OperationEvents) × (t' : Store) × (register_existing now u d t ≡ (returns e, t'))
        × (e.operation ≡ stored u (some d.operation))
  unfolding stored
  register_existing-stored u t d p q m (typed, kind, a) c =
      register_existing-completed now u id t d p q m
        ((validate_operation_status_transition_iff u (some d.operation)).0 a) c

  -- A step that a START creates is what `stored` says, in a store that is otherwise arbitrary.
  pub register_new-stored :
      (u : OperationUpdate)
      → present u.id ≡ some id
      → StepAccepted u none
      → u.action ≡ some start
      → (e : OperationEvents) × (t' : Store) × (register_new encode now token u id s
          ≡ (returns e, t'))
        × (e.operation ≡ stored u none)
  unfolding stored
  register_new-stored u p (typed, kind, a) q =
      let (e, t', r, k) =
        register_new-started encode now token u id s p
          ((validate_operation_status_transition_iff u none).0 a) q in
      (e, t', r, ground (arith, k, q))
