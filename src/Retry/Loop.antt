-- ===== src/Retry/Loop.antt =====
-- packages/aws-durable-execution-sdk-js/src/utils/with-retry/index.ts: `withRetry`. The loop runs
-- `func` with the number of the attempt, and waits durably between two attempts; the waits are listed
-- with the attempts that they follow. Its `while (true)` takes fuel, of which it uses one per attempt.
use aws_durable_execution_sd.Common.{
  ℕ, zero, suc, ◌+◌, ◌≤◌, ◌<◌, ◌≡◌, refl, Option, none, some, List, [], ◌∷◌, Text, length, get_or,
  ap, arith,
}
use aws_durable_execution_sd.Retry.{
  Duration, of_seconds, RetryDecision, give_up, retry_after, RetryStrategyConfig, retry_strategy,
}
use aws_durable_execution_sd.Retry.Delay.{retry_strategy-ends}

-- What an attempt, and what the loop ends with.
pub data Attempt (A E : Type 0) : Type 0 where
  returned : A → Attempt A E
  threw : E → Attempt A E

abbrev pub Ended : Type 0 → Type 0 → Type 0
Ended A E = Attempt A E × List (ℕ × Duration)

module _ {A E : Type 0} (strategy : E → ℕ → RetryDecision) (func : ℕ → Attempt A E) where
  abbrev after_wait : ℕ × Duration → Option (Ended A E) → Option (Ended A E)
  after_wait w none = none
  after_wait w (some (a, ws)) = some (a, w ∷ ws)

  by_decision : ℕ → E → RetryDecision → Option (Ended A E) → Option (Ended A E)
  by_decision attempt e give_up rest = some (threw e, [])
  by_decision attempt e (retry_after d) rest = after_wait (attempt, get_or d (of_seconds 1)) rest

  by_attempt : ℕ → Attempt A E → Option (Ended A E) → Option (Ended A E)
  unfolding by_decision
  by_attempt attempt (returned a) rest = some (returned a, [])
  by_attempt attempt (threw e) rest = by_decision attempt e (strategy e attempt) rest

  -- The loop from an attempt on, or nothing when the fuel is too little.
  unfoldable pub run_loop : ℕ → ℕ → Option (Ended A E)
  unfolding by_attempt
  run_loop zero attempt = none
  run_loop (suc fuel) attempt = by_attempt attempt (func attempt) (run_loop fuel (attempt + 1))

  -- How the loop runs from an attempt on, however long.
  pub data Runs : ℕ → Ended A E → Type 0 where
    succeeds : (n : ℕ) (a : A) → func n ≡ returned a → Runs n (returned a, [])
    gives_up : (n : ℕ) (e : E) → func n ≡ threw e → strategy e n ≡ give_up → Runs n (threw e, [])
    waits :
        (n : ℕ) (e : E) (d : Option Duration) (a : Attempt A E) (ws : List (ℕ × Duration))
        → func n ≡ threw e
        → strategy e n ≡ retry_after d
        → Runs (n + 1) (a, ws)
        → Runs n (a, (n, get_or d (of_seconds 1)) ∷ ws)

  -- The loop ends within the fuel, as `Runs` says, after fewer waits than the fuel.
  abbrev pub EndsWithin : ℕ → ℕ → Option (Ended A E) → Type 0
  EndsWithin fuel n o = (r : Ended A E) × (o ≡ some r) × Runs n r × (length r.1 < fuel)

  after_wait-EndsWithin :
      (fuel n : ℕ) (e : E) (d : Option Duration)
      → func n ≡ threw e
      → strategy e n ≡ retry_after d
      → EndsWithin fuel (n + 1) (run_loop fuel (n + 1))
      → EndsWithin (suc fuel) n (after_wait (n, get_or d (of_seconds 1)) (run_loop fuel (n + 1)))
  after_wait-EndsWithin fuel n e d p q ((a, ws), eq, w, l) = (
    (a, (n, get_or d (of_seconds 1)) ∷ ws),
    ap (after_wait (n, get_or d (of_seconds 1))) eq,
    waits n e d a ws p q w,
    omega (arith, l),
  )

  -- One turn of the loop, when the turns after it end if the strategy tries again.
  turn-EndsWithin :
      (fuel n : ℕ)
      → ((e : E) (d : Option Duration)
          → strategy e n ≡ retry_after d
          → EndsWithin fuel (n + 1) (run_loop fuel (n + 1)))
      → EndsWithin (suc fuel) n (run_loop (suc fuel) n)
  unfolding run_loop
  turn-EndsWithin fuel n more = on_attempt (func n) refl
    where
      on_decision :
          (e : E) (d : RetryDecision)
          → func n ≡ threw e
          → strategy e n ≡ d
          → EndsWithin (suc fuel) n (by_decision n e d (run_loop fuel (n + 1)))
      on_decision e give_up p q = ((threw e, []), refl, gives_up n e p q, omega arith)
      on_decision e (retry_after d) p q = after_wait-EndsWithin fuel n e d p q (more e d q)

      on_attempt :
          (a : Attempt A E)
          → func n ≡ a
          → EndsWithin (suc fuel) n (by_attempt n a (run_loop fuel (n + 1)))
      on_attempt (returned a) p = ((returned a, []), refl, succeeds n a p, omega arith)
      on_attempt (threw e) p = on_decision e (strategy e n) p refl

  run_loop-EndsWithin :
      (last fuel n : ℕ)
      → ((e : E) (k : ℕ) → last ≤ k → strategy e k ≡ give_up)
      → last ≤ n + fuel
      → EndsWithin (suc fuel) n (run_loop (suc fuel) n)
  run_loop-EndsWithin last zero n ends h =
      turn-EndsWithin zero n (λ e d q. absurd (ground (arith, ends e n (omega arith))))
  run_loop-EndsWithin last (suc fuel) n ends h =
      turn-EndsWithin (suc fuel) n
        (λ e d q. run_loop-EndsWithin last fuel (n + 1) ends (omega arith))

module _ {A E : Type 0} (message_of : E → Text) (random : ℕ → ℕ) (steps : ℕ)
    (r : (attempt : ℕ) → random attempt < steps) (c : RetryStrategyConfig E)
    (func : ℕ → Attempt A E) where
  -- The strategy, with the random number that it draws after each attempt.
  abbrev pub drawn : E → ℕ → RetryDecision
  drawn e attempt = retry_strategy message_of (random attempt) steps c e attempt

  -- The loop from the first attempt on, with fuel for one turn more than the allowed attempts.
  unfoldable pub with_retry : Option (Ended A E)
  unfolding run_loop retry_strategy
  with_retry = run_loop drawn func (suc (get_or c.max_attempts 3)) 1

  -- With the exponential strategy the loop of `withRetry` ends, whatever the function does: with the
  -- value of the first attempt that returns one, or the error of the first attempt after which the
  -- strategy gives up; before it every attempt has failed and been followed by the wait that the
  -- strategy asked for. There are at most as many waits as attempts are allowed.
  pub with_retry-EndsWithin : EndsWithin drawn func (suc (get_or c.max_attempts 3)) 1 with_retry
  unfolding with_retry
  with_retry-EndsWithin =
      run_loop-EndsWithin drawn func (get_or c.max_attempts 3) (get_or c.max_attempts 3) 1
        (λ e k h. retry_strategy-ends (random k) steps (r k) message_of c e k h) (omega arith)
