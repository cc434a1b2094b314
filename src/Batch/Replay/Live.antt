-- ===== src/Batch/Replay/Live.antt =====
-- concurrent-execution-handler.ts: the replay of a batch that `executeItemsConcurrently` has run.
use aws_durable_execution_sd.Common.{
  ℕ, ◌+◌, ◌≡◌, Bool, Option, some, List, is_some, Text, present, get_or,
}
use aws_durable_execution_sd.Wire.{OperationStatus}
use aws_durable_execution_sd.Batch.{ConcurrentExecutionItem, ConcurrencyConfig}
use aws_durable_execution_sd.Batch.Run.{Run, Settlement}
use aws_durable_execution_sd.Batch.Replay.Views.{terminal_at}

module _ {R T Percent : Type 0} (exceeds : ℕ → ℕ → Percent → Bool)
    (config : ConcurrencyConfig Percent) (items : List (ConcurrentExecutionItem T)) where
  module _ (decimal : ℕ → Text) (status_of : Text → Option OperationStatus)
      (run : ℕ → Text → ConcurrentExecutionItem T → Settlement R) (parent : Text) where
    -- An item's child context has a checkpoint that has ended just when its promise has settled, and
    -- `runInChildContext` then gives at its step what the promise gave.
    abbrev pub IsCheckpointed : ℕ → ConcurrentExecutionItem T → Option (Settlement R) → Type 0
    IsCheckpointed k item out =
        (terminal_at exceeds decimal status_of run parent k ≡ is_some out)
        × ((x : Settlement R)
            → out ≡ some x
            → run (k + 1) (get_or (present item.name) item.id) item ≡ x)
