-- ===== src/Retry/Delay.antt =====
-- packages/aws-durable-execution-sdk-js/src/utils/retry and utils/wait-strategy: the bounds of a delay,
-- and when an operation is tried again.
use aws_durable_execution_sd.Common.{
  ℕ, zero, suc, ◌+◌, ◌*◌, ◌/◌, ◌≤◌, ◌<◌, max, ◌≡◌, ◌≢◌, ◌↔◌, true, some, Text, get_or, arith,
}
use aws_durable_execution_sd.Retry.{
  JitterStrategy, no_jitter, full, half, Duration, of_seconds, of_minutes, duration_to_seconds,
  jittered, finalize_delay_seconds, exponential, RetryStrategyConfig, give_up, retry_after,
  resolve_retryable_errors, is_error_retryable, retry_strategy,
}

mul_below : (r m d : ℕ) → r ≤ m → r * d ≤ m * d
mul_below r m zero h = omega arith
mul_below r m (suc d) h = omega (arith, mul_below r m d h)

mul_mono : (m d q : ℕ) → d ≤ q → m * d ≤ m * q
mul_mono zero d q h = omega arith
mul_mono (suc m) d q h = omega (arith, mul_mono m d q h)

div_below : (a m d : ℕ) → 0 < m → a ≤ 2 * (m * d) + m → a / (2 * m) ≤ d
div_below a m d p h = grind (arith, λ (l : d + 1 ≤ a / (2 * m)). mul_mono m (d + 1) (a / (2 * m)) l)

div_above : (a m d : ℕ) → 0 < m → m * d + m ≤ a → d ≤ 2 * (a / (2 * m))
div_above a m d p h =
    grind (arith, λ (l : 2 * (a / (2 * m)) + 1 ≤ d). mul_mono m (2 * (a / (2 * m)) + 1) d l)

module _ (random steps : ℕ) (r : random < steps) where
  jittered_bounds :
      (delay : ℕ) (strategy : JitterStrategy)
      → (jittered random steps delay strategy ≤ delay)
        × ((strategy ≡ half) → delay ≤ 2 * jittered random steps delay strategy)
        × ((strategy ≡ no_jitter) → jittered random steps delay strategy ≡ delay)
  unfolding jittered
  jittered_bounds delay no_jitter = ground arith
  jittered_bounds delay full =
      let m = mul_below random steps delay (omega arith) in
      let b = div_below (2 * (random * delay) + steps) steps delay (omega arith) (omega arith) in
      ground (arith, b)
  jittered_bounds delay half =
      let m = mul_below random steps delay (omega arith) in
      let b =
        div_below (steps * delay + random * delay + steps) steps delay (omega arith)
          (omega arith) in
      let c =
        div_above (steps * delay + random * delay + steps) steps delay (omega arith)
          (omega arith) in
      ground (arith, b, c)

  -- What the delay before a next try is, for the delay that the back-off gives: at least one second and
  -- at most that delay (or one second), half of it at least with half jitter, and just that without.
  pub finalize_delay_seconds_bounds :
      (delay : ℕ) (strategy : JitterStrategy)
      → let s = finalize_delay_seconds random steps delay strategy in
        (1 ≤ s)
        × (s ≤ max 1 delay)
        × ((strategy ≡ half) → delay ≤ 2 * s)
        × ((strategy ≡ no_jitter) → s ≡ max 1 delay)
  unfolding finalize_delay_seconds
  finalize_delay_seconds_bounds delay strategy = ground (arith, jittered_bounds delay strategy)

  module _ {E : Type 0} (message_of : E → Text) where
    abbrev pub retry_cap : RetryStrategyConfig E → ℕ
    retry_cap c = duration_to_seconds (get_or c.max_delay (of_minutes 5))

    abbrev pub retry_base : RetryStrategyConfig E → ℕ → ℕ
    retry_base c attempts =
        exponential (duration_to_seconds (get_or c.initial_delay (of_seconds 5)))
          (get_or c.backoff_rate 2) (duration_to_seconds (get_or c.max_delay (of_minutes 5)))
          attempts

    -- The error is eligible: its message or its class is in the filters, of which there may be none.
    abbrev pub IsEligible : RetryStrategyConfig E → E → Type 0
    IsEligible c e =
        let (patterns, classes) =
          resolve_retryable_errors message_of c.retryable_errors c.retryable_error_types in
        is_error_retryable message_of e patterns classes ≡ true

    -- The exponential strategy tries again just while attempts are left and the error is eligible, after
    -- at least one second and at most the maximal delay (or one second).
    pub retry_strategy_lem :
        (c : RetryStrategyConfig E) (e : E) (attempts : ℕ)
        → ((retry_strategy message_of random steps c e attempts ≢ give_up)
            ↔ ((attempts < get_or c.max_attempts 3) × IsEligible c e))
          × ((d : Duration)
              → retry_strategy message_of random steps c e attempts ≡ retry_after (some d)
              → (1 ≤ duration_to_seconds d) × (duration_to_seconds d ≤ max 1 (retry_cap c)))
    unfolding retry_strategy duration_to_seconds
    retry_strategy_lem c e attempts =
        let bounds = finalize_delay_seconds_bounds (retry_base c attempts) (get_or c.jitter full) in
        (ground (arith, bounds), λ d h. ground (arith, bounds))

    -- With no attempt left, the strategy gives up.
    pub retry_strategy-ends :
        (c : RetryStrategyConfig E) (e : E) (attempts : ℕ)
        → get_or c.max_attempts 3 ≤ attempts
        → retry_strategy message_of random steps c e attempts ≡ give_up
    unfolding retry_strategy
    retry_strategy-ends c e attempts h = ground arith
