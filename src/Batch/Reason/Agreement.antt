-- ===== src/Batch/Reason/Agreement.antt =====
-- concurrent-execution-handler.ts: `shouldContinue`, `isComplete` and `getCompletionReason` test the
-- same settings in three places. What they say fits together.
use aws_durable_execution_sd.Common.{ℕ, ◌≡◌, ◌≢◌, ◌↔◌, Bool, true, false, Option, none, some, arith}
use aws_durable_execution_sd.Batch.{
  CompletionConfig, CompletionStatus, min_successful_reached, failure_tolerance_exceeded,
}
use aws_durable_execution_sd.Batch.Reason.{
  Tally, should_continue, is_complete, get_completion_reason,
}

-- No custom predicate is set.
abbrev pub IsThreshold : {Percent : Type 0} → Option (CompletionConfig Percent) → Type 0
IsThreshold none = Unit
IsThreshold (some c) = c.should_complete ≡ none

module _ {Percent : Type 0} (exceeds : ℕ → ℕ → Percent → Bool) where
  -- Without a custom predicate, the reason is a failed tolerance just when no further item would be
  -- started, and it is that enough items have succeeded just when further ones would be started,
  -- some item is not completed, and the batch is complete.
  pub reason_agrees :
      (c : Option (CompletionConfig Percent)) (t : Tally) (s : CompletionStatus)
      → IsThreshold c
      → ((get_completion_reason exceeds c t s ≡ failure_tolerance_exceeded)
          ↔ (should_continue exceeds c t s ≡ false))
        × ((get_completion_reason exceeds c t s ≡ min_successful_reached) ↔ (
            (should_continue exceeds c t s ≡ true)
            × (t.completed ≢ t.total)
            × (is_complete exceeds c t s ≡ true)))
  unfolding get_completion_reason should_continue is_complete
  reason_agrees none t s h = ground arith
  reason_agrees (some c) t s h = ground (arith, h)
