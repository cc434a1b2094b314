-- ===== src/Step/Protocol.antt =====
-- packages/aws-durable-execution-sdk-js/src/handlers/step-handler/step-handler.ts: the updates of a
-- step against the transitions that the checkpoint server accepts. `Serves` is what the handler relies
-- on; the module Stored shows it of the checkpoint server.
use aws_durable_execution_sd.Common.{
  ◌+◌, Bool, true, false, if◌then◌else◌, ◌≡◌, ◌⊎◌, Option, none, some, List, [], ◌∷◌, arith,
}
use aws_durable_execution_sd.Wire.{
  step, OperationStatus, succeeded, failed, pending, ready, start, retry, Operation,
  OperationUpdate,
}
use aws_durable_execution_sd.Checkpoint.{OperationLifecycleState, completed}
use aws_durable_execution_sd.Server.Validate.{ok, validate_operation_status_transition}
use aws_durable_execution_sd.Server.Validate.Transitions.{
  Transition, AbsentOr, IsOpen, validate_operation_status_transition_iff,
}
use aws_durable_execution_sd.Step.{
  Effect, sends, enqueues, marks, awaits_retry_timer, StepOutcome, terminates, StepRun,
  with_effects, attempts_of,
}

abbrev pub Accepted : OperationUpdate → Option Operation → Type 0
Accepted u o = validate_operation_status_transition u o ≡ ok tt

-- No operation, or one of the type STEP.
abbrev pub IsStep : Option Operation → Type 0
IsStep none = Unit {0}
IsStep (some o) = o.type ≡ some step

-- An update of a step that the server accepts for the step as it stands.
abbrev pub StepAccepted : OperationUpdate → Option Operation → Type 0
StepAccepted u o = (u.type ≡ some step) × IsStep o × Accepted u o

-- What the server makes of an accepted START and RETRY of a step, and what a retry timer that runs out
-- does. A START may leave a READY step READY.
pub record Serves (server : OperationUpdate → Option Operation → Operation)
    (timer : Operation → Operation) : Type 0 where
  pub server_type :
      (u : OperationUpdate) (o : Option Operation)
      → StepAccepted u o
      → (server u o).type ≡ some step
  pub start_status :
      (u : OperationUpdate) (o : Option Operation)
      → StepAccepted u o
      → u.action ≡ some start
      → IsOpen (server u o).status
  pub start_attempts :
      (u : OperationUpdate) (o : Option Operation)
      → StepAccepted u o
      → u.action ≡ some start
      → attempts_of (some (server u o)) ≡ attempts_of o
  pub retry_status :
      (u : OperationUpdate) (o : Option Operation)
      → StepAccepted u o
      → u.action ≡ some retry
      → (server u o).status ≡ some pending
  pub retry_attempts :
      (u : OperationUpdate) (o : Option Operation)
      → StepAccepted u o
      → u.action ≡ some retry
      → attempts_of (some (server u o)) ≡ attempts_of o + 1
  pub timer_type : (o : Operation) → (timer o).type ≡ o.type
  pub timer_status : (o : Operation) → o.status ≡ some pending → (timer o).status ≡ some ready
  pub timer_attempts : (o : Operation) → attempts_of (some (timer o)) ≡ attempts_of (some o)

-- A step that the handler may run: new, or started or ready.
abbrev pub IsRunnable : Option Operation → Type 0
IsRunnable o = AbsentOr IsOpen o × IsStep o

-- A run whose updates are all accepted for the step as they meet it, and which marks the step completed
-- last unless it ends in termination.
pub data IsLawful : StepRun → Type 0 where
  completes : (o : StepOutcome) → IsLawful (o, marks completed ∷ [])
  stops : IsLawful (terminates, [])
  sending :
      (o : StepOutcome) (es : List Effect) (u : OperationUpdate) (op : Option Operation)
      → StepAccepted u op
      → IsLawful (o, es)
      → IsLawful (o, sends u op ∷ es)
  enqueueing :
      (o : StepOutcome) (es : List Effect) (u : OperationUpdate) (op : Option Operation)
      → StepAccepted u op
      → IsLawful (o, es)
      → IsLawful (o, enqueues u op ∷ es)
  marking :
      (o : StepOutcome) (es : List Effect) (s : OperationLifecycleState)
      → IsLawful (o, es)
      → IsLawful (o, marks s ∷ es)
  waiting :
      (o : StepOutcome) (es : List Effect)
      → IsLawful (o, es)
      → IsLawful (o, awaits_retry_timer ∷ es)

abbrev pub EndsLawfully : Option StepRun → Type 0
EndsLawfully r = (x : StepRun) × (r ≡ some x) × IsLawful x

-- The states of a step that the service can hand to an invocation.
abbrev pub IsServed : Option OperationStatus → Type 0
IsServed s = IsOpen s ⊎ ((s ≡ some pending) ⊎ ((s ≡ some succeeded) ⊎ (s ≡ some failed)))

pub accepts : (u : OperationUpdate) (o : Option Operation) → Transition u o → Accepted u o
accepts u o t = (validate_operation_status_transition_iff u o).1 t

pub EndsLawfully-sends :
    (r : Option StepRun) (u : OperationUpdate) (o : Option Operation) (es : List Effect)
    → StepAccepted u o
    → EndsLawfully (with_effects es r)
    → EndsLawfully (with_effects (sends u o ∷ es) r)
EndsLawfully-sends r u o es a ((out, t), eq, l) =
    ((out, sends u o ∷ t), ground (arith, eq), sending out t u o a l)

pub EndsLawfully-enqueues :
    (r : Option StepRun) (u : OperationUpdate) (o : Option Operation) (es : List Effect)
    → StepAccepted u o
    → EndsLawfully (with_effects es r)
    → EndsLawfully (with_effects (enqueues u o ∷ es) r)
EndsLawfully-enqueues r u o es a ((out, t), eq, l) =
    ((out, enqueues u o ∷ t), ground (arith, eq), enqueueing out t u o a l)

pub EndsLawfully-marks :
    (r : Option StepRun) (s : OperationLifecycleState) (es : List Effect)
    → EndsLawfully (with_effects es r)
    → EndsLawfully (with_effects (marks s ∷ es) r)
EndsLawfully-marks r s es ((out, t), eq, l) =
    ((out, marks s ∷ t), ground (arith, eq), marking out t s l)

pub EndsLawfully-waits :
    (r : Option StepRun) (es : List Effect)
    → EndsLawfully (with_effects es r)
    → EndsLawfully (with_effects (awaits_retry_timer ∷ es) r)
EndsLawfully-waits r es ((out, t), eq, l) =
    ((out, awaits_retry_timer ∷ t), ground (arith, eq), waiting out t l)

pub if-EndsLawfully :
    (b : Bool) (x y : Option StepRun)
    → EndsLawfully x
    → EndsLawfully y
    → EndsLawfully (if b then x else y)
if-EndsLawfully true x y p q = p
if-EndsLawfully false x y p q = q
