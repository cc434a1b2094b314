-- ===== src/Checkpoint/Timers.antt =====
-- checkpoint-manager.ts: the timers and the polls of waiting operations, and `dispose`. `now` is
-- `Date.now()` in milliseconds. `forceRefreshAndCheckStatus` is split at its one `await`, into
-- `force_refresh` and `after_refresh`.
use aws_durable_execution_sd.Common.{
  ℕ, ◌+◌, ◌-◌, ◌*◌, min, Bool, true, false, ◌||◌, Option, none, some, [], ◌∷◌, ◌++◌, Text,
  Text-discrete, if◌then◌else◌, is_some, get_or, ltb,
}
use aws_durable_execution_sd.Common.Map
use aws_durable_execution_sd.Wire.{OperationStatus, same_status}
use aws_durable_execution_sd.Checkpoint.Terminate.{cleanup_all_operations}
use aws_durable_execution_sd.Checkpoint.Queue.{Promise, force_checkpoint, status_of}
use aws_durable_execution_sd.Checkpoint.{
  OperationInfo, CheckpointManager, max_timer_delay_ms, min_remaining_time_to_poll_ms,
  initial_poll_delay_ms, poll_interval_ceiling_ms, extended_poll_interval_ceiling_ms,
  polls_before_extended_interval,
}

-- The value of `getRemainingTimeMs()`, `Infinity` where no deadline is known. A time that has run
-- out is 0.
pub data Remaining : Type 0 where
  millis : ℕ → Remaining
  infinite : Remaining

abbrev pub find_info : CheckpointManager → Text → Option OperationInfo
find_info m step_id = Map.get Text-discrete m.operations step_id

abbrev pub put_info : Text → OperationInfo → CheckpointManager → CheckpointManager
put_info step_id op m = record m { operations = Map.set Text-discrete m.operations step_id op }

-- Both lines of `timer` and `disposed` handling: `dispose` is idempotent.
unfoldable pub dispose : CheckpointManager → CheckpointManager
unfolding cleanup_all_operations
dispose m =
    if m.disposed
    then m
    else cleanup_all_operations (record m {
      disposed = true;
      termination_timer = none;
      termination_reason = if is_some m.termination_timer then none else m.termination_reason;
    })

-- `delay > schedulableDelayMs`
abbrev pub cannot_schedule : Remaining → ℕ → Bool
cannot_schedule infinite delay = ltb max_timer_delay_ms delay
cannot_schedule (millis r) delay =
    ltb r (delay + min_remaining_time_to_poll_ms) || ltb max_timer_delay_ms delay

abbrev pub first_delay : ℕ → Option ℕ → ℕ
first_delay now none = initial_poll_delay_ms
first_delay now (some t) = t - now

unfoldable pub start_timer_with_polling :
    Remaining → ℕ → Text → Option ℕ → CheckpointManager → CheckpointManager
start_timer_with_polling remaining now step_id end_timestamp m =
    if m.disposed then m else elim (find_info m step_id) [
      | none ↦ m
      | some op ↦
          let delay = first_delay now end_timestamp in
          if cannot_schedule remaining delay
          then m
          else put_info step_id
              (record op { poll_count = some (get_or op.poll_count 0); timer = some delay }) m
    ]

-- `nextDelay` of the poll loop, for the count of polls made.
abbrev pub next_delay : ℕ → ℕ
next_delay polls = min (polls * 1000) (
    if ltb polls_before_extended_interval polls
    then extended_poll_interval_ceiling_ms
    else poll_interval_ceiling_ms)

module _ (hash : Text → Text) where
  abbrev pub stored_status : CheckpointManager → Text → Option OperationStatus
  stored_status m step_id = status_of hash m (hash step_id)

  abbrev pub too_little_left : Remaining → Bool
  too_little_left infinite = false
  too_little_left (millis r) = ltb r min_remaining_time_to_poll_ms

  abbrev pub refresh_found :
      Remaining
      → Text
      → CheckpointManager
      → Option OperationInfo
      → Option (Promise × Option OperationStatus) × CheckpointManager
  refresh_found remaining step_id m none = (none, m)
  refresh_found remaining step_id m (some op) =
      if too_little_left remaining
      then (none, put_info step_id (record op { timer = none }) m)
      else (some ((force_checkpoint m).0, stored_status m step_id), (force_checkpoint m).1)

  -- Up to the `await`: the promise that the poll then waits on, if it goes on, and the status that
  -- it will compare with.
  unfoldable pub force_refresh :
      Remaining
      → Text
      → CheckpointManager
      → Option (Promise × Option OperationStatus) × CheckpointManager
  unfolding force_checkpoint
  force_refresh remaining step_id m =
      if m.disposed then (none, m) else refresh_found remaining step_id m (find_info m step_id)

  abbrev pub polled_again : OperationInfo → OperationInfo
  polled_again op = record op {
    poll_count = some (get_or op.poll_count 0 + 1);
    timer = some (next_delay (get_or op.poll_count 0 + 1));
  }

  abbrev pub resolve_change : Text → OperationInfo → CheckpointManager → CheckpointManager
  resolve_change step_id op m =
      record (put_info step_id (record op { resolver = none; timer = none }) m) {
        resolved = m.resolved ++ elim op.resolver [ none ↦ [] | some t ↦ t ∷ [] ];
      }

  abbrev pub after_found :
      Text → Option OperationStatus → CheckpointManager → Option OperationInfo → CheckpointManager
  after_found step_id old_status m none = m
  after_found step_id old_status m (some op) =
      if same_status (stored_status m step_id) old_status
      then put_info step_id (polled_again op) m
      else resolve_change step_id op m

  -- After the `await`. An operation that has been forgotten meanwhile is out of the map, and what is
  -- done to its record is not modelled.
  unfoldable pub after_refresh :
      Text → Option OperationStatus → CheckpointManager → CheckpointManager
  after_refresh step_id old_status m = after_found step_id old_status m (find_info m step_id)
