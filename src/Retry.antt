-- ===== src/Retry.antt =====
-- packages/aws-durable-execution-sdk-js/src/utils/retry, utils/wait-strategy and utils/duration: when
-- an operation is tried again, and after which delay. Delays are whole seconds and back-off rates whole
-- numbers; `Math.random()` is the fraction `random / steps`, and `Math.round` is taken of the exact
-- fraction. An attempt is counted from 1. An error is given with its message. A
-- field of a configuration that is given as `undefined` is not modelled: it would replace its default.
mod Tests
pub mod Delay
pub mod Loop
use aws_durable_execution_sd.Common.{
  ℕ, ◌+◌, ◌-◌, ◌*◌, ◌/◌, ◌^◌, min, max, Bool, true, false, not, ◌||◌, Option, none, some, List, [],
  ◌∷◌, Text, is_prefix, leb, any, get_or, if◌then◌else◌,
}

pub data JitterStrategy : Type 0 where
  no_jitter full half : JitterStrategy

pub record Duration : Type 0 where
  pub days : Option ℕ
  pub hours : Option ℕ
  pub minutes : Option ℕ
  pub seconds : Option ℕ

abbrev pub of_seconds : ℕ → Duration
of_seconds n = record { days = none; hours = none; minutes = none; seconds = some n }

abbrev pub of_minutes : ℕ → Duration
of_minutes n = record { days = none; hours = none; minutes = some n; seconds = none }

unfoldable pub duration_to_seconds : Duration → ℕ
duration_to_seconds d =
    get_or d.days 0 * 24 * 60 * 60
    + get_or d.hours 0 * 60 * 60
    + get_or d.minutes 0 * 60
    + get_or d.seconds 0

-- `String.includes`.
abbrev pub includes : Text → Text → Bool
includes [] p = is_prefix p []
includes (c ∷ t) p = let rest = includes t p in is_prefix p (c ∷ t) || rest

-- A pattern of `retryableErrors`: a text, or a regular expression by its test.
pub data Pattern : Type 0 where
  literal : Text → Pattern
  regexp : (Text → Bool) → Pattern

abbrev pub matches : Pattern → Text → Bool
matches (literal p) message = includes message p
matches (regexp test) message = test message

-- `E` is the type of errors, and an error class is its `instanceof` test.
module _ {E : Type 0} (message_of : E → Text) where
  unfoldable pub is_error_retryable : E → List Pattern → List (E → Bool) → Bool
  is_error_retryable e patterns classes =
      any (λ p. matches p (message_of e)) patterns || any (λ is. is e) classes

  abbrev pub Filters : Type 0
  Filters = List Pattern × List (E → Bool)

  -- With neither filter, `/.*/` matches every message.
  unfoldable pub resolve_retryable_errors :
      Option (List Pattern) → Option (List (E → Bool)) → Filters
  resolve_retryable_errors none none = (regexp (λ t. true) ∷ [], [])
  resolve_retryable_errors none (some classes) = ([], classes)
  resolve_retryable_errors (some patterns) classes = (patterns, get_or classes [])

-- `Math.max(1, Math.round(applyJitter(delay, strategy)))`.
module _ (random steps : ℕ) where
  unfoldable pub jittered : ℕ → JitterStrategy → ℕ
  jittered delay no_jitter = delay
  jittered delay full = (2 * (random * delay) + steps) / (2 * steps)
  jittered delay half = (steps * delay + random * delay + steps) / (2 * steps)

  unfoldable pub finalize_delay_seconds : ℕ → JitterStrategy → ℕ
  unfolding jittered
  finalize_delay_seconds delay strategy = max 1 (jittered delay strategy)

pub record RetryStrategyConfig (E : Type 0) : Type 0 where
  pub max_attempts : Option ℕ
  pub initial_delay : Option Duration
  pub max_delay : Option Duration
  pub backoff_rate : Option ℕ
  pub jitter : Option JitterStrategy
  pub retryable_errors : Option (List Pattern)
  pub retryable_error_types : Option (List (E → Bool))

pub record LinearRetryStrategyConfig (E : Type 0) : Type 0 where
  pub max_attempts : Option ℕ
  pub initial_delay : Option Duration
  pub increment : Option Duration
  pub max_delay : Option Duration
  pub jitter : Option JitterStrategy
  pub retryable_errors : Option (List Pattern)
  pub retryable_error_types : Option (List (E → Bool))

pub record WaitStrategyConfig (T : Type 0) : Type 0 where
  pub max_attempts : Option ℕ
  pub initial_delay : Option Duration
  pub max_delay : Option Duration
  pub backoff_rate : ℕ
  pub jitter : Option JitterStrategy
  pub should_continue_polling : T → Bool

pub data RetryDecision : Type 0 where
  give_up : RetryDecision
  retry_after : Option Duration → RetryDecision

-- The result of a wait strategy, which may throw.
pub data WaitDecision : Type 0 where
  stop_polling : WaitDecision
  poll_after : Duration → WaitDecision
  exceeded_attempts : WaitDecision

abbrev pub exponential : ℕ → ℕ → ℕ → ℕ → ℕ
exponential initial rate cap attempts = min (initial * rate ^ (attempts - 1)) cap

abbrev pub linear : ℕ → ℕ → ℕ → ℕ → ℕ
linear initial increment cap attempts = min (initial + increment * (attempts - 1)) cap

module _ {E : Type 0} (message_of : E → Text) (random steps : ℕ) where
  abbrev retryable : E → Filters message_of → Bool
  retryable e (patterns, classes) = is_error_retryable message_of e patterns classes

  abbrev decide_retry : Bool → Bool → ℕ → RetryDecision
  decide_retry exhausted eligible delay =
      if exhausted
      then give_up
      else if not eligible
      then give_up
      else retry_after (some (of_seconds delay))

  -- The decision of the function that `createRetryStrategy` returns.
  unfoldable pub retry_strategy : RetryStrategyConfig E → E → ℕ → RetryDecision
  unfolding resolve_retryable_errors is_error_retryable duration_to_seconds finalize_delay_seconds
  retry_strategy c e attempts =
      decide_retry (leb (get_or c.max_attempts 3) attempts)
        (retryable e
          (resolve_retryable_errors message_of c.retryable_errors c.retryable_error_types))
        (finalize_delay_seconds random steps
          (exponential (duration_to_seconds (get_or c.initial_delay (of_seconds 5)))
            (get_or c.backoff_rate 2) (duration_to_seconds (get_or c.max_delay (of_minutes 5)))
            attempts)
          (get_or c.jitter full))

  -- The decision of the function that `createLinearRetryStrategy` returns.
  unfoldable pub linear_retry_strategy : LinearRetryStrategyConfig E → E → ℕ → RetryDecision
  unfolding resolve_retryable_errors is_error_retryable duration_to_seconds finalize_delay_seconds
  linear_retry_strategy c e attempts =
      decide_retry (leb (get_or c.max_attempts 6) attempts)
        (retryable e
          (resolve_retryable_errors message_of c.retryable_errors c.retryable_error_types))
        (finalize_delay_seconds random steps
          (linear (duration_to_seconds (get_or c.initial_delay (of_seconds 1)))
            (duration_to_seconds (get_or c.increment (of_seconds 1)))
            (duration_to_seconds (get_or c.max_delay (of_minutes 5))) attempts)
          (get_or c.jitter full))

-- The decision of the function that `createWaitStrategy` returns. The rate is always given,
-- since its default is 1.5.
unfoldable pub wait_strategy : {T : Type 0} → ℕ → ℕ → WaitStrategyConfig T → T → ℕ → WaitDecision
unfolding duration_to_seconds finalize_delay_seconds
wait_strategy random steps c result attempts =
    if not (c.should_continue_polling result)
    then stop_polling
    else if leb (get_or c.max_attempts 60) attempts
    then exceeded_attempts
    else poll_after (
        of_seconds (
          finalize_delay_seconds random steps
            (exponential (duration_to_seconds (get_or c.initial_delay (of_seconds 5)))
              c.backoff_rate (duration_to_seconds (get_or c.max_delay (of_seconds 300))) attempts)
            (get_or c.jitter full)))
