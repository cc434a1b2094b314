-- ===== src/Termination.antt =====
-- packages/aws-durable-execution-sdk-js/src/termination-manager: why an invocation ends, and the
-- manager that ends it once. The promise that `terminate` resolves is `details`; a cleanup callback
-- is awaited before that and its errors are dropped, so it changes neither.
use aws_durable_execution_sd.Common.{
  ◌≡◌, arith, Bool, true, false, Option, none, some, Text, codes, get_or, if◌then◌else◌,
}

pub data TerminationReason : Type 0 where
  operation_terminated retry_scheduled retry_interrupted_step wait_scheduled callback_pending
        checkpoint_failed serdes_failed context_validation_error config_validation_error
        non_determinism custom :
      TerminationReason

unfoldable pub TerminationReason-discrete : Discrete TerminationReason
TerminationReason-discrete = hlevel

pub data TerminationClass : Type 0 where
  suspend fault : TerminationClass

-- `TERMINATION_CLASS`, which is total on the enum, so that the default of `classifyTermination` is
-- not reached.
unfoldable pub classify_termination : TerminationReason → TerminationClass
classify_termination operation_terminated = suspend
classify_termination retry_scheduled = suspend
classify_termination retry_interrupted_step = suspend
classify_termination wait_scheduled = suspend
classify_termination callback_pending = suspend
classify_termination checkpoint_failed = fault
classify_termination serdes_failed = fault
classify_termination context_validation_error = fault
classify_termination config_validation_error = fault
classify_termination non_determinism = fault
classify_termination custom = fault

-- `E` is the type of the errors that a termination may carry.
pub record TerminationOptions (E : Type 0) : Type 0 where
  pub reason : Option TerminationReason
  pub message : Option Text
  pub error : Option E

pub record TerminationDetails (E : Type 0) : Type 0 where
  pub reason : TerminationReason
  pub message : Text
  pub error : Option E

pub record TerminationManager (E : Type 0) : Type 0 where
  pub is_terminated : Bool
  pub termination_details : Option (TerminationDetails E)

module _ {E : Type 0} where
  unfoldable pub new_manager : TerminationManager E
  new_manager = record { is_terminated = false; termination_details = none }

  -- The first call wins: a later one returns at once. The result's Boolean says whether this call
  -- ran the callback that marks the checkpoint manager as terminating.
  unfoldable pub terminate :
      TerminationManager E → TerminationOptions E → TerminationManager E × Bool
  terminate t o = if t.is_terminated then (t, false) else (
    record {
      is_terminated = true;
      termination_details = some (record {
        reason = get_or o.reason operation_terminated;
        message = get_or o.message (codes "Operation terminated");
        error = o.error;
      });
    },
    true,
  )

-- After a manager's first termination, a second one changes nothing and does not run the callback again: the first reason, message
-- and error stay, and a reason and a message that were not given have their defaults.
pub terminate-terminate :
    {E : Type 0} (t : TerminationManager E) (o p : TerminationOptions E)
    → t.is_terminated ≡ false
    → (terminate (terminate t o).0 p ≡ ((terminate t o).0, false))
      × ((terminate t o).1 ≡ true)
      × ((terminate (terminate t o).0 p).0.termination_details
          ≡ some (record {
            reason = get_or o.reason operation_terminated;
            message = get_or o.message (codes "Operation terminated");
            error = o.error;
          }))
unfolding terminate
terminate-terminate t o p h = ground (arith, h)
