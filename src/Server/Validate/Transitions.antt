-- ===== src/Server/Validate/Transitions.antt =====
-- checkpoint-server/validators/operation-type: which updates may follow which operation status.
use aws_durable_execution_sd.Common.{
  ◌≡◌, refl, ◌≢◌, ◌↔◌, ◌⊎◌, Bool, true, false, Option, none, some, arith,
}
use aws_durable_execution_sd.Wire.{
  OperationType, callback, chained_invoke, context, execution, step, wait, OperationStatus,
  cancelled, failed, ready, started, stopped, succeeded, timed_out, OperationAction, cancel, fail,
  retry, start, succeed, Operation, OperationUpdate, OperationStatus-discrete,
}
use aws_durable_execution_sd.Server.Validate.{ok, validate_operation_status_transition}

-- The types whose operations something else than the SDK completes.
pub data Cancellable : OperationType → Type 0 where
  a_callback : Cancellable callback
  an_invoke : Cancellable chained_invoke
  a_wait : Cancellable wait

-- No operation yet, or one in the given state.
abbrev pub AbsentOr : (Option OperationStatus → Type 0) → Option Operation → Type 0
AbsentOr P none = Unit {0}
AbsentOr P (some op) = P op.status

abbrev pub IsStarted : Option OperationStatus → Type 0
IsStarted s = s ≡ some started

abbrev pub IsReady : Option OperationStatus → Type 0
IsReady s = s ≡ some ready

abbrev pub IsOpen : Option OperationStatus → Type 0
IsOpen s = (s ≡ some started) ⊎ (s ≡ some ready)

-- The transitions of the durable-execution service, as a relation between an update and the
-- operation that it meets.
pub data Transition (u : OperationUpdate) (op : Option Operation) : Type 0 where
  create :
      (t : OperationType)
      → Cancellable t
      → u.type ≡ some t
      → u.action ≡ some start
      → op ≡ none
      → Transition u op
  stop :
      (t : OperationType) (o : Operation)
      → Cancellable t
      → u.type ≡ some t
      → u.action ≡ some cancel
      → op ≡ some o
      → IsStarted o.status
      → Transition u op
  open_context : u.type ≡ some context → u.action ≡ some start → op ≡ none → Transition u op
  close_context :
      u.type ≡ some context
      → u.action ≡ some succeed
      → AbsentOr IsStarted op
      → u.error ≡ none
      → Transition u op
  fail_context :
      u.type ≡ some context
      → u.action ≡ some fail
      → AbsentOr IsStarted op
      → u.payload ≡ none
      → Transition u op
  end_execution :
      u.type ≡ some execution → u.action ≡ some succeed → u.error ≡ none → Transition u op
  fail_execution :
      u.type ≡ some execution → u.action ≡ some fail → u.payload ≡ none → Transition u op
  start_step : u.type ≡ some step → u.action ≡ some start → AbsentOr IsReady op → Transition u op
  close_step :
      u.type ≡ some step
      → u.action ≡ some succeed
      → AbsentOr IsOpen op
      → u.error ≡ none
      → Transition u op
  fail_step :
      u.type ≡ some step
      → u.action ≡ some fail
      → AbsentOr IsOpen op
      → u.payload ≡ none
      → Transition u op
  retry_step :
      u.type ≡ some step
      → u.action ≡ some retry
      → AbsentOr IsOpen op
      → u.step_options ≢ none
      → (u.error ≡ none) ⊎ (u.payload ≡ none)
      → Transition u op

Transition-complete :
    (u : OperationUpdate) (op : Option Operation)
    → Transition u op
    → validate_operation_status_transition u op ≡ ok tt
unfolding validate_operation_status_transition OperationStatus-discrete
Transition-complete u op (create t a_callback p q r) = ground arith
Transition-complete u op (create t an_invoke p q r) = ground arith
Transition-complete u op (create t a_wait p q r) = ground arith
Transition-complete u op (stop t o a_callback p q r s) = ground arith
Transition-complete u op (stop t o an_invoke p q r s) = ground arith
Transition-complete u op (stop t o a_wait p q r s) = ground arith
Transition-complete u op (open_context p q r) = ground arith
Transition-complete u op (close_context p q r s) = ground arith
Transition-complete u op (fail_context p q r s) = ground arith
Transition-complete u op (end_execution p q r) = ground arith
Transition-complete u op (fail_execution p q r) = ground arith
Transition-complete u op (start_step p q r) = ground arith
Transition-complete u op (close_step p q r s) = ground arith
Transition-complete u op (fail_step p q r s) = ground arith
Transition-complete u op (retry_step p q r s t) = ground arith

module _ (u : OperationUpdate) where
  sound_cancellable :
      (t : OperationType) (a : Option OperationAction) (op : Option Operation)
      → Cancellable t
      → u.type ≡ some t
      → u.action ≡ a
      → validate_operation_status_transition u op ≡ ok tt
      → Transition u op
  unfolding validate_operation_status_transition OperationStatus-discrete
  sound_cancellable t (some start) none k p q h = create t k p q refl
  sound_cancellable t (some start) (some o) a_callback p q h = absurd (ground arith)
  sound_cancellable t (some start) (some o) an_invoke p q h = absurd (ground arith)
  sound_cancellable t (some start) (some o) a_wait p q h = absurd (ground arith)
  sound_cancellable t (some cancel) (some o) a_callback p q h =
      stop t o a_callback p q refl (ground arith)
  sound_cancellable t (some cancel) (some o) an_invoke p q h =
      stop t o an_invoke p q refl (ground arith)
  sound_cancellable t (some cancel) (some o) a_wait p q h = stop t o a_wait p q refl (ground arith)
  sound_cancellable t a op a_callback p q h = absurd (ground arith)
  sound_cancellable t a op an_invoke p q h = absurd (ground arith)
  sound_cancellable t a op a_wait p q h = absurd (ground arith)

  sound_at :
      (t : Option OperationType) (a : Option OperationAction) (op : Option Operation)
      → u.type ≡ t
      → u.action ≡ a
      → validate_operation_status_transition u op ≡ ok tt
      → Transition u op
  unfolding validate_operation_status_transition OperationStatus-discrete
  sound_at (some callback) a op p q h = sound_cancellable callback a op a_callback p q h
  sound_at (some chained_invoke) a op p q h = sound_cancellable chained_invoke a op an_invoke p q h
  sound_at (some wait) a op p q h = sound_cancellable wait a op a_wait p q h
  sound_at (some context) (some start) op p q h = open_context p q (ground arith)
  sound_at (some context) (some succeed) op p q h = close_context p q (ground arith) (ground arith)
  sound_at (some context) (some fail) op p q h = fail_context p q (ground arith) (ground arith)
  sound_at (some execution) (some succeed) op p q h = end_execution p q (ground arith)
  sound_at (some execution) (some fail) op p q h = fail_execution p q (ground arith)
  sound_at (some step) (some start) op p q h = start_step p q (ground arith)
  sound_at (some step) (some succeed) op p q h = close_step p q (ground arith) (ground arith)
  sound_at (some step) (some fail) op p q h = fail_step p q (ground arith) (ground arith)
  sound_at (some step) (some retry) op p q h =
      retry_step p q (ground arith) (ground arith) (ground arith)
  sound_at t a op p q h = absurd (ground arith)

-- The server's check of an update against the operation that it meets accepts exactly the
-- transitions of the relation `Transition`.
pub validate_operation_status_transition_iff :
    (u : OperationUpdate) (op : Option Operation)
    → (validate_operation_status_transition u op ≡ ok tt) ↔ Transition u op
validate_operation_status_transition_iff u op =
    (sound_at u u.type u.action op refl refl, Transition-complete u op)

abbrev pub is_closed : OperationStatus → Bool
is_closed cancelled = true
is_closed failed = true
is_closed stopped = true
is_closed succeeded = true
is_closed timed_out = true
is_closed _ = false

-- No accepted update reopens or changes an operation in a terminal state, unless it is of the type
-- EXECUTION, whatever its action.
pub closed_rejects :
    (u : OperationUpdate) (o : Operation) (s : OperationStatus)
    → o.status ≡ some s
    → is_closed s ≡ true
    → u.type ≢ some execution
    → validate_operation_status_transition u (some o) ≢ ok tt
unfolding validate_operation_status_transition OperationStatus-discrete
closed_rejects u o s e c n h = ground arith
