-- ===== src/Step/Tests.antt =====
-- Examples of steps.
use aws_durable_execution_sd.Common.{
  ℕ, zero, suc, ◌≤◌, Bool, true, false, ◌≡◌, refl, inl, Option, none, some, Text, codes, arith,
}
use aws_durable_execution_sd.Wire.{started, start, Operation, OperationUpdate, ErrorObject}
use aws_durable_execution_sd.Server.Storage.{Store, new_store}
use aws_durable_execution_sd.Retry.{RetryDecision, give_up, retry_after}
use aws_durable_execution_sd.Retry.Loop.{Attempt, returned, threw}
use aws_durable_execution_sd.Step.{at_most_once_per_retry, run_step, StepRun, step_update}
use aws_durable_execution_sd.Step.Protocol.{Serves, EndsLawfully}
use aws_durable_execution_sd.Step.Stored.{stored, made_ready, stored-Serves}
use aws_durable_execution_sd.Step.AtMostOnce.{IsGuarded, run_step-IsGuarded}
use aws_durable_execution_sd.Step.Ends.{run_step-EndsLawfully}

-- The checkpoint server, at the time 0 and with an empty store.
abbrev encode : Text → Text → Text → Text
encode a b c = a

abbrev empty_store : Store
empty_store = new_store (codes "run")

abbrev local_server : OperationUpdate → Option Operation → Operation
local_server = stored encode 0 (codes "t") (codes "1") empty_store

local-Serves : Serves local_server made_ready
local-Serves = stored-Serves encode 0 (codes "t") (codes "1") empty_store

-- Two attempts, of which the second returns.
abbrev once_more : Text → ℕ → RetryDecision
once_more e (suc zero) = retry_after none
once_more e n = give_up

once_more-ends : (e : Text) (k : ℕ) → 2 ≤ k → once_more e k ≡ give_up
once_more-ends e zero h = refl
once_more-ends e (suc zero) h = absurd (omega (arith, h))
once_more-ends e (suc (suc k)) h = refl

abbrev second_time : ℕ → Attempt Text Text
second_time (suc zero) = threw (codes "no")
second_time n = returned (codes "yes")

abbrev plain_error : Text → ErrorObject
plain_error t = record {
  error_type = none;
  error_message = some t;
  error_data = none;
  stack_trace = none;
}

abbrev written : Text → Option (Option Text)
written t = some (some t)

abbrev always : Option Text → Bool
always t = true

abbrev never : Text → Bool
never t = false

run_step-EndsLawfully_example : EndsLawfully (
    run_step
      (codes "1")
      none
      none
      none
      at_most_once_per_retry
      once_more
      written
      always
      never
      plain_error
      (codes "interrupted")
      local_server
      made_ready
      second_time
      2
      none)
run_step-EndsLawfully_example =
    run_step-EndsLawfully (codes "1") none none none at_most_once_per_retry once_more written always
      never plain_error (codes "interrupted") local_server made_ready second_time local-Serves 2
      once_more-ends 1 none tt tt (omega arith)

-- A step that an earlier invocation has started, in its first attempt.
abbrev left_started : Operation
left_started = record (local_server (step_update (codes "1") none none none start) none) {
  status = some started;
}

run_step-IsGuarded_example :
    (x : StepRun) × (run_step
        (codes "1")
        none
        none
        none
        at_most_once_per_retry
        once_more
        written
        always
        never
        plain_error
        (codes "interrupted")
        local_server
        made_ready
        second_time
        2
        (some left_started)
      ≡ some x)
    × IsGuarded x.1
unfolding stored
run_step-IsGuarded_example =
    run_step-IsGuarded (codes "1") none none none once_more written always never plain_error
      (codes "interrupted") local_server made_ready second_time local-Serves 2 once_more-ends 1
      (some left_started) (inl (inl refl)) refl (omega arith)
