-- ===== src/Step/AtMostOnce.antt =====
-- packages/aws-durable-execution-sdk-js/src/handlers/step-handler/step-handler.ts: the checkpoint that
-- the semantics `AtMostOncePerRetry` (types/step.ts) puts before each run of the function.
use aws_durable_execution_sd.Common.{
  ℕ, zero, suc, ◌+◌, ◌≤◌, Bool, true, false, if◌then◌else◌, ◌≡◌, refl, ◌≢◌, inl, inr, Option, none,
  some, List, [], ◌∷◌, Text, arith, sym, subst, ◌∙◌,
}
use aws_durable_execution_sd.Wire.{
  step, OperationStatus, started, succeeded, failed, pending, ready, cancelled, stopped, timed_out,
  start, Operation, OperationUpdate, ErrorObject, OperationStatus-discrete,
}
use aws_durable_execution_sd.Checkpoint.{
  OperationLifecycleState, executing, retry_waiting, completed,
}
use aws_durable_execution_sd.Server.Validate.Transitions.{AbsentOr, IsReady}
use aws_durable_execution_sd.Retry.{RetryDecision, give_up, retry_after, Duration}
use aws_durable_execution_sd.Retry.Loop.{Attempt, returned, threw}
use aws_durable_execution_sd.Step.{
  at_most_once_per_retry, Effect, sends, marks, awaits_retry_timer, StepRun, with_effects,
  attempts_of, step_update, execute_step_logic, run_step, begun, beginning, after_retry,
  by_decision, by_attempt, by_serialized, by_status, is_interrupted,
}
use aws_durable_execution_sd.Step.Protocol.{Serves, IsServed, IsStep, IsRunnable}
use aws_durable_execution_sd.Step.Ends.{
  retried-IsRunnable, opened-IsRunnable, run_step-EndsLawfully,
}

-- Each run of the function has its own START directly before it, sent when the step is new or ready,
-- and awaited; no update goes unawaited.
pub data IsGuarded : List Effect → Type 0 where
  quiet : IsGuarded []
  runs :
      (u : OperationUpdate) (op : Option Operation) (es : List Effect)
      → u.action ≡ some start
      → AbsentOr IsReady op
      → IsGuarded es
      → IsGuarded (sends u op ∷ marks executing ∷ es)
  updates :
      (u : OperationUpdate) (op : Option Operation) (es : List Effect)
      → IsGuarded es
      → IsGuarded (sends u op ∷ es)
  marks_other :
      (s : OperationLifecycleState) (es : List Effect)
      → s ≢ executing
      → IsGuarded es
      → IsGuarded (marks s ∷ es)
  waits : (es : List Effect) → IsGuarded es → IsGuarded (awaits_retry_timer ∷ es)

abbrev Guards : Option StepRun → Type 0
Guards none = Unit {0}
Guards (some x) = IsGuarded x.1

Guards-start :
    (u : OperationUpdate) (o : Option Operation) (r : Option StepRun)
    → u.action ≡ some start
    → AbsentOr IsReady o
    → Guards r
    → Guards (with_effects (sends u o ∷ marks executing ∷ []) r)
Guards-start u o none p h g = g
Guards-start u o (some (out, es)) p h g = runs u o es p h g

Guards-wait :
    (r : Option StepRun)
    → Guards r
    → Guards (with_effects (marks retry_waiting ∷ awaits_retry_timer ∷ []) r)
Guards-wait none g = g
Guards-wait (some (out, es)) g =
    marks_other retry_waiting (awaits_retry_timer ∷ es) (λ q. absurd (ground arith)) (waits es g)

Guards-retry :
    (u : OperationUpdate) (o : Option Operation) (r : Option StepRun)
    → Guards r
    → Guards (with_effects (sends u o ∷ marks retry_waiting ∷ awaits_retry_timer ∷ []) r)
Guards-retry u o none g = g
Guards-retry u o (some (out, es)) g =
    updates u o (marks retry_waiting ∷ awaits_retry_timer ∷ es) (Guards-wait (some (out, es)) g)

completed-IsGuarded : IsGuarded (marks completed ∷ [])
completed-IsGuarded = marks_other completed [] (λ q. absurd (ground arith)) quiet

if-Guards : (b : Bool) (x y : Option StepRun) → Guards x → Guards y → Guards (if b then x else y)
if-Guards true x y p q = p
if-Guards false x y p q = q

-- A step that is new or ready.
abbrev IsFresh : Option Operation → Type 0
IsFresh o = AbsentOr IsReady o × IsStep o

fresh-IsRunnable : (o : Option Operation) → IsFresh o → IsRunnable o
fresh-IsRunnable none h = h
fresh-IsRunnable (some op) (p, t) = (inr p, t)

module _ {A E : Type 0} (step_id : Text) (parent_id name sub_type : Option Text)
    (strategy : E → ℕ → RetryDecision) (serialize : A → Option (Option Text))
    (readable : Option Text → Bool) (unrecoverable : E → Bool) (error_object : E → ErrorObject)
    (interrupted : E) (server : OperationUpdate → Option Operation → Operation)
    (timer : Operation → Operation) (fn : ℕ → Attempt A E) (serves : Serves server timer) where
  abbrev logic : ℕ → Option Operation → Option StepRun
  logic =
      execute_step_logic step_id parent_id name sub_type at_most_once_per_retry strategy serialize
        readable unrecoverable error_object interrupted server timer fn

  abbrev opened : Option Operation → Option Operation
  opened =
      begun step_id parent_id name sub_type at_most_once_per_retry strategy serialize readable
        unrecoverable error_object interrupted server timer fn

  abbrev retried : E → Option Duration → Option Operation → Operation
  retried =
      after_retry step_id parent_id name sub_type at_most_once_per_retry strategy serialize readable
        unrecoverable error_object interrupted server timer fn

  abbrev sent : OperationUpdate
  sent = step_update step_id parent_id name sub_type start

  decided-Guards :
      (e : E) (b : Option Operation) (d : RetryDecision) (more : Operation → Option StepRun)
      → ((t : Option Duration) → Guards (more (retried e t b)))
      → Guards (
          by_decision step_id parent_id name sub_type at_most_once_per_retry strategy serialize
            readable unrecoverable error_object interrupted server timer fn e b d more)
  unfolding execute_step_logic
  decided-Guards e b give_up more k = updates _ b _ completed-IsGuarded
  decided-Guards e b (retry_after t) more k = Guards-retry _ b (more (retried e t b)) (k t)

  serialized-Guards :
      (o : Option (Option Text)) (b : Option Operation)
      → Guards (
          by_serialized step_id parent_id name sub_type at_most_once_per_retry strategy serialize
            readable unrecoverable error_object interrupted server timer fn o b)
  unfolding execute_step_logic
  serialized-Guards none b = quiet
  serialized-Guards (some text) b = updates _ b _ completed-IsGuarded

  attempted-Guards :
      (a : Attempt A E) (b : Option Operation) (more : Operation → Option StepRun)
      → ((e : E) (t : Option Duration) → Guards (more (retried e t b)))
      → Guards (
          by_attempt step_id parent_id name sub_type at_most_once_per_retry strategy serialize
            readable unrecoverable error_object interrupted server timer fn a b more)
  unfolding execute_step_logic
  attempted-Guards (returned v) b more k = serialized-Guards (serialize v) b
  attempted-Guards (threw e) b more k =
      if-Guards (unrecoverable e) _ _ quiet
        (decided-Guards e b (strategy e (attempts_of b + 1)) more (k e))

  beginning_lem :
      (o : Option Operation)
      → AbsentOr IsReady o
      → beginning step_id parent_id name sub_type at_most_once_per_retry strategy serialize readable
          unrecoverable error_object interrupted server timer fn o
        ≡ sends sent o ∷ marks executing ∷ []
  unfolding OperationStatus-discrete
  beginning_lem none h = refl
  beginning_lem (some op) h = ground (arith, h)

  logic-Guards : (fuel : ℕ) (o : Option Operation) → IsFresh o → Guards (logic fuel o)
  unfolding execute_step_logic
  logic-Guards zero o h = tt
  logic-Guards (suc fuel) o h =
      subst (λ es. Guards (with_effects es rest)) (sym (beginning_lem o h.0))
        (Guards-start sent o rest refl h.0 (
          attempted-Guards (fn (attempts_of (opened o) + 1)) (opened o) more
            (λ e t. logic-Guards fuel (some (retried e t (opened o))) (is_fresh e t))))
    where
      more : Operation → Option StepRun
      more op' = logic fuel (some op')

      rest : Option StepRun
      rest =
          by_attempt step_id parent_id name sub_type at_most_once_per_retry strategy serialize
            readable unrecoverable error_object interrupted server timer fn
            (fn (attempts_of (opened o) + 1)) (opened o) more

      is_fresh : (e : E) (t : Option Duration) → IsFresh (some (retried e t (opened o)))
      is_fresh e t =
          let (ready_again, typed, next) =
            retried-IsRunnable step_id parent_id name sub_type at_most_once_per_retry strategy
              serialize readable unrecoverable error_object interrupted server timer fn serves e t
              (opened o)
              (opened-IsRunnable step_id parent_id name sub_type at_most_once_per_retry strategy
                serialize readable unrecoverable error_object interrupted server timer fn serves o
                (fresh-IsRunnable o h)).0 in
          (ready_again, typed)

  -- A step that an earlier invocation has started.
  interrupted-Guards :
      (fuel : ℕ) (op : Operation)
      → IsRunnable (some op)
      → Guards (
          by_decision step_id parent_id name sub_type at_most_once_per_retry strategy serialize
            readable unrecoverable error_object interrupted server timer fn interrupted
            (some op)
            (strategy interrupted (attempts_of (some op) + 1))
            (λ op'. logic fuel (some op')))
  interrupted-Guards fuel op p =
      decided-Guards interrupted (some op) (strategy interrupted (attempts_of (some op) + 1))
        (λ op'. logic fuel (some op'))
        (λ t.
          let (ready_again, typed, next) =
            retried-IsRunnable step_id parent_id name sub_type at_most_once_per_retry strategy
              serialize readable unrecoverable error_object interrupted server timer fn serves
              interrupted t (some op) p in
          logic-Guards fuel (some (retried interrupted t (some op))) (ready_again, typed))

  was_interrupted :
      (op : Operation)
      → op.status ≡ some started
      → is_interrupted step_id parent_id name sub_type at_most_once_per_retry strategy serialize
          readable unrecoverable error_object interrupted server timer fn at_most_once_per_retry
          (some op)
        ≡ true
  unfolding OperationStatus-discrete
  was_interrupted op p = ground (arith, p)

  abbrev entered : ℕ → Operation → Bool → Option StepRun
  entered fuel op b =
      if b
      then by_decision step_id parent_id name sub_type at_most_once_per_retry strategy serialize
          readable unrecoverable error_object interrupted server timer fn interrupted (some op)
          (strategy interrupted (attempts_of (some op) + 1)) (λ op'. logic fuel (some op'))
      else logic fuel (some op)

  status-Guards :
      (fuel : ℕ) (op : Operation) (s : Option OperationStatus)
      → op.status ≡ s
      → IsServed s
      → op.type ≡ some step
      → Guards (
          by_status step_id parent_id name sub_type at_most_once_per_retry strategy serialize
            readable unrecoverable error_object interrupted server timer fn fuel s op)
  unfolding run_step
  status-Guards fuel op (some started) e h t =
      subst (λ b. Guards (entered fuel op b)) (sym (was_interrupted op e))
        (interrupted-Guards fuel op (inl e, t))
  status-Guards fuel op (some ready) e h t =
      if-Guards
        (is_interrupted step_id parent_id name sub_type at_most_once_per_retry strategy serialize
          readable unrecoverable error_object interrupted server timer fn at_most_once_per_retry
          (some op))
        _ _ (interrupted-Guards fuel op (inr e, t)) (logic-Guards fuel (some op) (e, t))
  status-Guards fuel op (some pending) e h t =
      Guards-wait (logic fuel (some (timer op)))
        (logic-Guards fuel (some (timer op)) (serves.timer_status op e, serves.timer_type op ∙ t))
  status-Guards fuel op (some succeeded) e h t = completed-IsGuarded
  status-Guards fuel op (some failed) e h t = completed-IsGuarded
  status-Guards fuel op (some cancelled) e h t = absurd (ground arith)
  status-Guards fuel op (some stopped) e h t = absurd (ground arith)
  status-Guards fuel op (some timed_out) e h t = absurd (ground arith)
  status-Guards fuel op none e h t = absurd (ground arith)

  run_step-Guards :
      (fuel : ℕ) (o : Option Operation)
      → AbsentOr IsServed o
      → IsStep o
      → Guards (
          run_step step_id parent_id name sub_type at_most_once_per_retry strategy serialize
            readable unrecoverable error_object interrupted server timer fn fuel o)
  unfolding run_step
  run_step-Guards fuel none h t = logic-Guards fuel none (tt, tt)
  run_step-Guards fuel (some op) h t = status-Guards fuel op op.status refl h t

  -- With at-most-once semantics, a server and a timer that do as `Serves` says and a strategy that
  -- gives up from some attempt on, the step ends, and each time its function has run a START came
  -- directly before, sent while the step was new or ready, and awaited: a step that is found started is
  -- not run again before it has been retried.
  pub run_step-IsGuarded :
      (last : ℕ)
      → ((e : E) (k : ℕ) → last ≤ k → strategy e k ≡ give_up)
      → (fuel : ℕ) (o : Option Operation) → AbsentOr IsServed o
      → IsStep o
      → last ≤ attempts_of o + 1 + fuel
      → (x : StepRun) × (run_step step_id parent_id name sub_type at_most_once_per_retry strategy
            serialize readable unrecoverable error_object interrupted server timer fn
            (suc fuel)
            o
          ≡ some x)
        × IsGuarded x.1
  run_step-IsGuarded last ends fuel o h t l =
      let (x, eq, lawful) =
        run_step-EndsLawfully step_id parent_id name sub_type at_most_once_per_retry strategy
          serialize readable unrecoverable error_object interrupted server timer fn serves last ends
          fuel o h t l in
      (x, eq, subst Guards eq (run_step-Guards (suc fuel) o h t))
