-- ===== src/Retry/Tests.antt =====
-- Examples of retries.
use aws_durable_execution_sd.Common.{
  ℕ, zero, suc, ◌≤◌, ◌<◌, max, ◌≡◌, ◌≢◌, ◌↔◌, none, some, Text, codes, arith,
}
use aws_durable_execution_sd.Retry.{
  no_jitter, Duration, duration_to_seconds, RetryStrategyConfig, retry_strategy, give_up,
  retry_after,
}
use aws_durable_execution_sd.Retry.Delay.{retry_strategy_lem, IsEligible, retry_cap}
use aws_durable_execution_sd.Retry.Loop.{
  Attempt, returned, threw, with_retry, drawn, EndsWithin, with_retry-EndsWithin,
}

-- Two attempts, after 5 seconds; an error is its own message.
abbrev twice : RetryStrategyConfig Text
twice = record {
  max_attempts = some 2;
  initial_delay = none;
  max_delay = none;
  backoff_rate = none;
  jitter = some no_jitter;
  retryable_errors = none;
  retryable_error_types = none;
}

abbrev itself : Text → Text
itself t = t

-- The second attempt returns.
abbrev flaky : ℕ → Attempt ℕ Text
flaky (suc zero) = threw (codes "no")
flaky n = returned 7

abbrev never_random : ℕ → ℕ
never_random k = 0

one_pos : (attempt : ℕ) → never_random attempt < 1
one_pos attempt = omega arith

retry_strategy_lem_example :
    ((retry_strategy itself 0 1 twice (codes "no") 1 ≢ give_up)
      ↔ ((1 < 2) × IsEligible 0 1 (one_pos 0) itself twice (codes "no")))
    × ((d : Duration)
        → retry_strategy itself 0 1 twice (codes "no") 1 ≡ retry_after (some d)
        → (1 ≤ duration_to_seconds d)
          × (duration_to_seconds d ≤ max 1 (retry_cap 0 1 (one_pos 0) itself twice)))
retry_strategy_lem_example = retry_strategy_lem 0 1 (one_pos 0) itself twice (codes "no") 1

with_retry-EndsWithin_example :
    EndsWithin
      (drawn itself never_random 1 one_pos twice flaky)
      flaky
      3
      1
      (with_retry itself never_random 1 one_pos twice flaky)
with_retry-EndsWithin_example = with_retry-EndsWithin itself never_random 1 one_pos twice flaky
