-- ===== src/Step/Ends.antt =====
-- packages/aws-durable-execution-sdk-js/src/handlers/step-handler/step-handler.ts: the attempts of a
-- step, one after the other, up to its end.
use aws_durable_execution_sd.Common.{
  ℕ, zero, suc, ◌+◌, ◌≤◌, Bool, true, false, if◌then◌else◌, ◌≡◌, refl, inl, inr, Option, none, some,
  List, [], ◌∷◌, Text, arith, sym, subst, ap, ◌∙◌,
}
use aws_durable_execution_sd.Wire.{
  step, OperationStatus, started, succeeded, failed, pending, ready, cancelled, stopped, timed_out,
  OperationAction, start, Operation, OperationUpdate, ErrorObject, OperationStatus-discrete,
}
use aws_durable_execution_sd.Checkpoint.{executing, retry_waiting}
use aws_durable_execution_sd.Server.Validate.Transitions.{
  AbsentOr, IsReady, start_step, close_step, fail_step, retry_step,
}
use aws_durable_execution_sd.Retry.{RetryDecision, give_up, retry_after, Duration}
use aws_durable_execution_sd.Retry.Loop.{Attempt, returned, threw}
use aws_durable_execution_sd.Step.{
  StepSemantics, Effect, marks, awaits_retry_timer, StepRun, with_effects, attempts_of, step_update,
  execute_step_logic, run_step, begun, beginning, after_retry, by_decision, by_attempt, by_status,
  is_interrupted, by_serialized, start_effect, seen, at_least_once_per_retry,
  at_most_once_per_retry, retry_update,
}
use aws_durable_execution_sd.Step.Protocol.{
  Serves, sending, completes, stops, EndsLawfully, IsServed, accepts, EndsLawfully-sends,
  EndsLawfully-enqueues, IsStep, StepAccepted, IsRunnable, EndsLawfully-marks, EndsLawfully-waits,
  if-EndsLawfully,
}

module _ {A E : Type 0} (step_id : Text) (parent_id name sub_type : Option Text)
    (semantics : StepSemantics) (strategy : E → ℕ → RetryDecision)
    (serialize : A → Option (Option Text)) (readable : Option Text → Bool)
    (unrecoverable : E → Bool) (error_object : E → ErrorObject) (interrupted : E)
    (server : OperationUpdate → Option Operation → Operation) (timer : Operation → Operation)
    (fn : ℕ → Attempt A E) (serves : Serves server timer) where
  abbrev logic : ℕ → Option Operation → Option StepRun
  logic =
      execute_step_logic step_id parent_id name sub_type semantics strategy serialize readable
        unrecoverable error_object interrupted server timer fn

  abbrev opened : Option Operation → Option Operation
  opened =
      begun step_id parent_id name sub_type semantics strategy serialize readable unrecoverable
        error_object interrupted server timer fn

  abbrev retried : E → Option Duration → Option Operation → Operation
  retried =
      after_retry step_id parent_id name sub_type semantics strategy serialize readable
        unrecoverable error_object interrupted server timer fn

  abbrev retry_sent : E → Option Duration → OperationUpdate
  retry_sent =
      retry_update step_id parent_id name sub_type semantics strategy serialize readable
        unrecoverable error_object interrupted server timer fn

  abbrev decided :
      E → Option Operation → RetryDecision → (Operation → Option StepRun) → Option StepRun
  decided =
      by_decision step_id parent_id name sub_type semantics strategy serialize readable
        unrecoverable error_object interrupted server timer fn

  abbrev attempted : Attempt A E → Option Operation → (Operation → Option StepRun) → Option StepRun
  attempted =
      by_attempt step_id parent_id name sub_type semantics strategy serialize readable unrecoverable
        error_object interrupted server timer fn

  abbrev run_from : ℕ → Option OperationStatus → Operation → Option StepRun
  run_from =
      by_status step_id parent_id name sub_type semantics strategy serialize readable unrecoverable
        error_object interrupted server timer fn

  abbrev sent : OperationAction → OperationUpdate
  sent = step_update step_id parent_id name sub_type

  retry_accepted :
      (e : E) (d : Option Duration) (b : Option Operation)
      → IsRunnable b
      → StepAccepted (retry_sent e d) b
  retry_accepted e d b h = (
    refl,
    h.1,
    accepts (retry_sent e d) b
        (retry_step refl refl h.0 (λ q. absurd (ground (arith, q))) (inr refl)),
  )

  pub retried-IsRunnable :
      (e : E) (d : Option Duration) (b : Option Operation)
      → IsRunnable b
      → ((retried e d b).status ≡ some ready)
        × ((retried e d b).type ≡ some step)
        × (attempts_of (some (retried e d b)) ≡ attempts_of b + 1)
  retried-IsRunnable e d b h =
      let a = retry_accepted e d b h in
      (
        serves.timer_status _ (serves.retry_status _ b a refl),
        serves.timer_type _ ∙ serves.server_type _ b a,
        serves.timer_attempts _ ∙ serves.retry_attempts _ b a refl,
      )

  start_accepted :
      (o : Option Operation) → AbsentOr IsReady o → IsStep o → StepAccepted (sent start) o
  start_accepted o h t = (refl, t, accepts (sent start) o (start_step refl refl h))

  started_again :
      (o : Option Operation)
      → AbsentOr IsReady o
      → IsStep o
      → let b = some (server (sent start) o) in IsRunnable b × (attempts_of b ≡ attempts_of o)
  started_again o h t =
      let a = start_accepted o h t in
      ((serves.start_status _ o a refl, serves.server_type _ o a), serves.start_attempts _ o a refl)

  pub opened-IsRunnable :
      (o : Option Operation)
      → IsRunnable o
      → IsRunnable (opened o) × (attempts_of (opened o) ≡ attempts_of o)
  unfolding OperationStatus-discrete
  opened-IsRunnable none h = started_again none tt tt
  opened-IsRunnable (some op) (inl p, t) =
      let e : opened (some op) ≡ some op = ground (arith, p) in
      subst (λ b. IsRunnable b × (attempts_of b ≡ attempts_of (some op))) (sym e) ((inl p, t), refl)
  opened-IsRunnable (some op) (inr p, t) =
      let e : opened (some op) ≡ some (server (sent start) (some op)) = ground (arith, p) in
      subst (λ b. IsRunnable b × (attempts_of b ≡ attempts_of (some op))) (sym e)
        (started_again (some op) p t)

  decided-Ends :
      (e : E) (b : Option Operation) (d : RetryDecision) (more : Operation → Option StepRun)
      → IsRunnable b
      → ((t : Option Duration) → d ≡ retry_after t → EndsLawfully (more (retried e t b)))
      → EndsLawfully (decided e b d more)
  unfolding execute_step_logic
  decided-Ends e b give_up more h k = (
    _,
    refl,
    sending _ _ _ b (refl, h.1, accepts _ b (fail_step refl refl h.0 refl)) (completes _),
  )
  decided-Ends e b (retry_after t) more h k =
      EndsLawfully-sends rest (retry_sent e t) b (marks retry_waiting ∷ awaits_retry_timer ∷ [])
        (retry_accepted e t b h)
        (EndsLawfully-marks rest retry_waiting (awaits_retry_timer ∷ [])
          (EndsLawfully-waits rest [] (k t refl)))
    where
      rest : Option StepRun
      rest = more (retried e t b)

  serialized-Ends :
      (o : Option (Option Text)) (b : Option Operation)
      → IsRunnable b
      → EndsLawfully (
          by_serialized step_id parent_id name sub_type semantics strategy serialize readable
            unrecoverable error_object interrupted server timer fn o b)
  unfolding execute_step_logic
  serialized-Ends none b h = (_, refl, stops)
  serialized-Ends (some text) b h = (
    _,
    refl,
    sending _ _ _ b (refl, h.1, accepts _ b (close_step refl refl h.0 refl)) (completes _),
  )

  attempted-Ends :
      (a : Attempt A E) (b : Option Operation) (more : Operation → Option StepRun)
      → IsRunnable b
      → ((e : E) (t : Option Duration)
          → strategy e (attempts_of b + 1) ≡ retry_after t
          → EndsLawfully (more (retried e t b)))
      → EndsLawfully (attempted a b more)
  unfolding execute_step_logic
  attempted-Ends (returned v) b more h k = serialized-Ends (serialize v) b h
  attempted-Ends (threw e) b more h k =
      if-EndsLawfully (unrecoverable e) _ _ (_, refl, stops)
        (decided-Ends e b (strategy e (attempts_of b + 1)) more h (k e))

  abbrev started_with : Option Operation → List Effect
  started_with =
      beginning step_id parent_id name sub_type semantics strategy serialize readable unrecoverable
        error_object interrupted server timer fn

  starting-Ends :
      (m : StepSemantics) (o : Option Operation) (r : Option StepRun)
      → StepAccepted (sent start) o
      → EndsLawfully r
      → EndsLawfully (
          with_effects
            (start_effect step_id parent_id name sub_type semantics strategy serialize readable
                unrecoverable error_object interrupted server timer fn m o
              ∷ marks executing
              ∷ [])
            r)
  starting-Ends at_least_once_per_retry o r a k =
      EndsLawfully-enqueues r (sent start) o (marks executing ∷ []) a
        (EndsLawfully-marks r executing [] k)
  starting-Ends at_most_once_per_retry o r a k =
      EndsLawfully-sends r (sent start) o (marks executing ∷ []) a
        (EndsLawfully-marks r executing [] k)

  -- The effects up to the call of the function.
  beginning-Ends :
      (o : Option Operation) (r : Option StepRun)
      → IsRunnable o
      → EndsLawfully r
      → EndsLawfully (with_effects (started_with o) r)
  unfolding OperationStatus-discrete
  beginning-Ends none r h k = starting-Ends semantics none r (start_accepted none tt tt) k
  beginning-Ends (some op) r (inl p, t) k =
      subst (λ es. EndsLawfully (with_effects es r)) (sym e) (EndsLawfully-marks r executing [] k)
    where
      e : started_with (some op) ≡ marks executing ∷ []
      e = ground (arith, p)
  beginning-Ends (some op) r (inr p, t) k =
      subst (λ es. EndsLawfully (with_effects es r)) (sym e)
        (starting-Ends semantics (some op) r (start_accepted (some op) p t) k)
    where
      e :
          started_with (some op)
          ≡ start_effect step_id parent_id name sub_type semantics strategy serialize readable
              unrecoverable error_object interrupted server timer fn semantics
              (some op)
            ∷ marks executing
            ∷ []
      e = ground (arith, p)

  abbrev known : Option Operation → Option Operation
  known =
      seen step_id parent_id name sub_type semantics strategy serialize readable unrecoverable
        error_object interrupted server timer fn semantics

  -- An attempt, when the attempts after it end if the strategy tries again.
  turn-Ends :
      (fuel : ℕ) (o : Option Operation)
      → IsRunnable o
      → ((e : E) (t : Option Duration)
          → strategy e (attempts_of o + 1) ≡ retry_after t
          → EndsLawfully (logic fuel (some (retried e t (opened o)))))
      → EndsLawfully (logic (suc fuel) o)
  unfolding execute_step_logic
  turn-Ends fuel o h k =
      let (is_open, same) = opened-IsRunnable o h in
      beginning-Ends o (attempted (fn (attempts_of (known o) + 1)) (opened o) more) h (
        attempted-Ends (fn (attempts_of (known o) + 1)) (opened o) more is_open
          (λ e t q. k e t (sym (ap (λ n. strategy e (n + 1)) same) ∙ q)))
    where
      more : Operation → Option StepRun
      more op' = logic fuel (some op')

  module _ (last : ℕ) (ends : (e : E) (k : ℕ) → last ≤ k → strategy e k ≡ give_up) where
    logic-Ends :
        (fuel : ℕ) (o : Option Operation)
        → IsRunnable o
        → last ≤ attempts_of o + 1 + fuel
        → EndsLawfully (logic (suc fuel) o)
    logic-Ends zero o h l =
        turn-Ends zero o h
          (λ e t q. absurd (ground (arith, q, ends e (attempts_of o + 1) (omega (arith, l)))))
    logic-Ends (suc fuel) o h l = turn-Ends (suc fuel) o h (λ e t q.
        let (is_open, same) = opened-IsRunnable o h in
        let (is_ready, typed, next) = retried-IsRunnable e t (opened o) is_open in
        logic-Ends fuel (some (retried e t (opened o))) (inr is_ready, typed)
          (omega (arith, l, same, next)))

    -- An open step, which is taken for interrupted or run.
    entered-Ends :
        (fuel : ℕ) (op : Operation)
        → IsRunnable (some op)
        → last ≤ attempts_of (some op) + 1 + fuel
        → (b : Bool)
        → EndsLawfully (
            if b
            then decided interrupted
                (some op)
                (strategy interrupted (attempts_of (some op) + 1))
                (λ op'. logic (suc fuel) (some op'))
            else logic (suc fuel) (some op))
    entered-Ends fuel op h l false = logic-Ends fuel (some op) h l
    entered-Ends fuel op h l true =
        decided-Ends interrupted (some op) (strategy interrupted (attempts_of (some op) + 1))
          (λ op'. logic (suc fuel) (some op')) h
          (λ t q.
            let (is_ready, typed, next) = retried-IsRunnable interrupted t (some op) h in
            logic-Ends fuel (some (retried interrupted t (some op))) (inr is_ready, typed)
              (omega (arith, l, next)))

    status-Ends :
        (fuel : ℕ) (op : Operation) (s : Option OperationStatus)
        → op.status ≡ s
        → IsServed s
        → op.type ≡ some step
        → last ≤ attempts_of (some op) + 1 + fuel
        → EndsLawfully (run_from (suc fuel) s op)
    unfolding run_step
    status-Ends fuel op (some started) e h t l =
        entered-Ends fuel op (inl e, t) l
          (is_interrupted step_id parent_id name sub_type semantics strategy serialize readable
            unrecoverable error_object interrupted server timer fn semantics (some op))
    status-Ends fuel op (some ready) e h t l =
        entered-Ends fuel op (inr e, t) l
          (is_interrupted step_id parent_id name sub_type semantics strategy serialize readable
            unrecoverable error_object interrupted server timer fn semantics (some op))
    status-Ends fuel op (some pending) e h t l =
        EndsLawfully-marks rest retry_waiting (awaits_retry_timer ∷ []) (
          EndsLawfully-waits rest [] (
            logic-Ends fuel (some (timer op))
              (inr (serves.timer_status op e), serves.timer_type op ∙ t)
              (omega (arith, l, serves.timer_attempts op))))
      where
        rest : Option StepRun
        rest = logic (suc fuel) (some (timer op))
    status-Ends fuel op (some succeeded) e h t l = (_, refl, completes _)
    status-Ends fuel op (some failed) e h t l = (_, refl, completes _)
    status-Ends fuel op (some cancelled) e h t l = absurd (ground arith)
    status-Ends fuel op (some stopped) e h t l = absurd (ground arith)
    status-Ends fuel op (some timed_out) e h t l = absurd (ground arith)
    status-Ends fuel op none e h t l = absurd (ground arith)

    -- Whatever the function does, a step that is new, or that is held as a step that is open, pending,
    -- succeeded or failed, ends, when the strategy gives up from some attempt on and the server and the
    -- timer do as `Serves` says: each update it sends is one that the server accepts for the step as it
    -- then stands, and the step is marked completed last, unless the invocation is terminated.
    pub run_step-EndsLawfully :
        (fuel : ℕ) (o : Option Operation)
        → AbsentOr IsServed o
        → IsStep o
        → last ≤ attempts_of o + 1 + fuel
        → EndsLawfully (
            run_step step_id parent_id name sub_type semantics strategy serialize readable
              unrecoverable error_object interrupted server timer fn
              (suc fuel)
              o)
    unfolding run_step
    run_step-EndsLawfully fuel none h t l = logic-Ends fuel none (tt, tt) l
    run_step-EndsLawfully fuel (some op) h t l = status-Ends fuel op op.status refl h t l
