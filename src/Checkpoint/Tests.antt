-- ===== src/Checkpoint/Tests.antt =====
-- Examples of a checkpoint manager: a fresh one, one with a queue, and one whose step waits.
use aws_durable_execution_sd.Common.{
  ℕ, ◌+◌, ◌≤◌, ◌≡◌, ◌≢◌, ◌↔◌, ◌⊎◌, refl, inl, true, false, none, some, List, [], ◌∷◌, ◌++◌, Text,
  codes, arith, length, get_or,
}
use aws_durable_execution_sd.Common.Map
use aws_durable_execution_sd.Wire.{OperationUpdate, step, wait, start}
use aws_durable_execution_sd.Termination.{
  new_manager, terminate, TerminationOptions, operation_terminated, custom, wait_scheduled,
  terminate-terminate,
}
use aws_durable_execution_sd.Checkpoint.{
  new_checkpoint_manager, CheckpointManager, OperationMetadata, CheckpointError, OperationInfo,
  idle_awaited, wait_sub, QueuedCheckpoint,
}
use aws_durable_execution_sd.Checkpoint.Ids.{
  has_finished_ancestor, has_finished_ancestor_iff, FinishedAbove,
}
use aws_durable_execution_sd.Checkpoint.Classify.{
  Thrown, classify_checkpoint_error, classify_checkpoint_error_iff, FailsExecution, IsPermanent,
  execution_scope,
}
use aws_durable_execution_sd.Checkpoint.Terminate.{on_cooldown, check_and_terminate}
use aws_durable_execution_sd.Checkpoint.Terminate.Safety.{MayEnd}
use aws_durable_execution_sd.Checkpoint.Lifecycle.{Outcome, throws, returns, mark_operation_state}
use aws_durable_execution_sd.Checkpoint.Invariant.Tracked.Ended.{Steps-MayEnd}
use aws_durable_execution_sd.Checkpoint.Queue.Answers.{
  Extends, complete_success_lem, complete_failure_lem,
}
use aws_durable_execution_sd.Checkpoint.Queue.{
  CheckpointResponse, accept_response, tickets, batch_of, complete_success, complete_failure,
  checkpoint, on_immediate,
}
use aws_durable_execution_sd.Checkpoint.Queue.Batches.{SendsBatch, process_queue-SendsBatch}
use aws_durable_execution_sd.Checkpoint.Timers.{
  millis, find_info, put_info, start_timer_with_polling, first_delay, next_delay, dispose,
}
use aws_durable_execution_sd.Checkpoint.Polling.{
  Fits, armed, IsQuiet, start_timer_with_polling-Fits, next_delay_lem, dispose_lem,
}
use aws_durable_execution_sd.Checkpoint.Steps.{Steps, here, next, enqueues, runs, marks}
use aws_durable_execution_sd.Checkpoint.Invariant.{Awake}
use aws_durable_execution_sd.Checkpoint.Invariant.Always.{Steps-Awake}

-- The identity stands for the digest.
abbrev same : Text → Text
same t = t

abbrev hundred : Text → OperationUpdate → ℕ
hundred t u = 100

abbrev fresh : CheckpointManager
fresh = new_checkpoint_manager (codes "t") [] [] new_manager

abbrev start_step : OperationUpdate
start_step = record {
  id = none;
  parent_id = none;
  name = none;
  type = some step;
  sub_type = none;
  action = some start;
  payload = none;
  error = none;
  context_options = none;
  step_options = none;
  wait_options = none;
  callback_options = none;
  chained_invoke_options = none;
}

abbrev queued : CheckpointManager
queued = (checkpoint hundred (codes "1") start_step fresh).1

abbrev sending : CheckpointManager
sending = on_immediate same queued

round_pending : queued.scheduled ≢ 0
unfolding checkpoint has_finished_ancestor
round_pending = λ e. absurd (ground (arith, e))

abbrev queue_and_send : Steps same hundred fresh sending
queue_and_send =
    next (next here (enqueues (codes "1") start_step fresh)) (runs queued round_pending)

Steps-Awake_example : Awake sending
Steps-Awake_example = Steps-Awake same hundred (codes "t") [] [] new_manager sending queue_and_send

abbrev holding : CheckpointManager
holding = record fresh {
  queue = record { step_id = codes "1"; update = start_step; size_bytes = 100; ticket = 0 } ∷ [];
}

process_queue-SendsBatch_example : (batch : List QueuedCheckpoint) × SendsBatch same holding batch
process_queue-SendsBatch_example = process_queue-SendsBatch same holding refl (inl refl)

abbrev waiting_op : OperationInfo
waiting_op = record {
  step_id = codes "1";
  state = idle_awaited;
  metadata = record {
    step_id = codes "1";
    name = none;
    type = wait;
    sub_type = wait_sub;
    parent_id = none;
  };
  end_timestamp = none;
  timer = none;
  resolver = some 4;
  poll_count = none;
}

abbrev suspended : CheckpointManager
suspended = record fresh { operations = (codes "1", waiting_op) ∷ [] }

-- A wait is tracked from the start, and the code awaits it.
abbrev waiting_metadata : OperationMetadata
waiting_metadata = record {
  step_id = codes "1";
  name = none;
  type = wait;
  sub_type = wait_sub;
  parent_id = none;
}

abbrev of_outcome : Outcome CheckpointManager → CheckpointManager
of_outcome (throws e) = fresh
of_outcome (returns m) = m

abbrev waiting_manager : CheckpointManager
waiting_manager =
    of_outcome
      (mark_operation_state same (codes "1") idle_awaited (some waiting_metadata) none fresh)

is_marked :
    mark_operation_state same (codes "1") idle_awaited (some waiting_metadata) none fresh
    ≡ returns waiting_manager
unfolding mark_operation_state Map.get
is_marked = refl

abbrev mark_and_wait : Steps same hundred fresh waiting_manager
mark_and_wait = next here (marks (codes "1") idle_awaited (some waiting_metadata) none is_marked)

not_ended : waiting_manager.termination_manager.is_terminated ≡ false
unfolding mark_operation_state new_manager Map.get check_and_terminate Map.set has_finished_ancestor
not_ended = refl

ended : (on_cooldown same wait_scheduled waiting_manager).termination_manager.is_terminated ≡ true
unfolding mark_operation_state on_cooldown has_finished_ancestor new_manager Map.get
    check_and_terminate Map.set
ended = refl

Steps-MayEnd_example : MayEnd same waiting_manager
Steps-MayEnd_example =
    Steps-MayEnd same hundred (codes "t") [] [] new_manager waiting_manager wait_scheduled
      mark_and_wait not_ended ended

abbrev throttled : Thrown
throttled = record {
  scope = none;
  status_code = some 429;
  name = none;
  message = none;
  original_message = codes "slow down";
}

classify_checkpoint_error_iff_example : FailsExecution (classify_checkpoint_error throttled) ↔ (
    (throttled.scope ≡ some execution_scope) ⊎ ((throttled.scope ≡ none) × IsPermanent throttled))
classify_checkpoint_error_iff_example = classify_checkpoint_error_iff throttled

has_finished_ancestor_iff_example :
    (has_finished_ancestor (codes "1" ∷ []) (codes "1-2-3") ≡ true)
    ↔ FinishedAbove (codes "1" ∷ []) (codes "1-2-3") (length (codes "1-2-3"))
has_finished_ancestor_iff_example = has_finished_ancestor_iff (codes "1" ∷ []) (codes "1-2-3")

start_timer_with_polling-Fits_example :
    (start_timer_with_polling (millis 5000) 0 (codes "1") none suspended ≡ suspended)
    ⊎ ((op : OperationInfo) × (find_info suspended (codes "1") ≡ some op)
        × (suspended.disposed ≡ false)
        × Fits (millis 5000) (first_delay 0 none)
        × (start_timer_with_polling (millis 5000) 0 (codes "1") none suspended
            ≡ put_info (codes "1") (armed (first_delay 0 none) op) suspended))
start_timer_with_polling-Fits_example =
    start_timer_with_polling-Fits (millis 5000) 0 (codes "1") none suspended

next_delay_lem_example :
    (1000 ≤ next_delay 3) × (next_delay 3 ≤ 60000) × (next_delay 3 ≤ next_delay (3 + 1))
next_delay_lem_example = next_delay_lem 3 (omega arith)

dispose_lem_example :
    ((dispose suspended).disposed ≡ true)
    × ((dispose suspended).termination_timer ≡ none)
    × IsQuiet (dispose suspended)
    × (dispose (dispose suspended) ≡ dispose suspended)
dispose_lem_example = dispose_lem suspended refl

abbrev first_options : TerminationOptions CheckpointError
first_options = record { reason = none; message = none; error = none }

abbrev second_options : TerminationOptions CheckpointError
second_options = record { reason = some custom; message = some (codes "late"); error = none }

terminate-terminate_example :
    (terminate (terminate new_manager first_options).0 second_options
      ≡ ((terminate new_manager first_options).0, false))
    × ((terminate new_manager first_options).1 ≡ true)
    × ((terminate (terminate new_manager first_options).0 second_options).0.termination_details
        ≡ some (record {
          reason = get_or first_options.reason operation_terminated;
          message = get_or first_options.message (codes "Operation terminated");
          error = first_options.error;
        }))
unfolding new_manager
terminate-terminate_example = terminate-terminate new_manager first_options second_options refl

-- A request with one update is on the way, a force request waits, and so does a caller.
abbrev busy_manager : CheckpointManager
busy_manager = record fresh {
  is_processing = true;
  in_flight =
      some (record { step_id = codes "1"; update = start_step; size_bytes = 100; ticket = 0 } ∷ []);
  force_checkpoint_promises = 1 ∷ [];
  queue_completion_resolver = some 2;
  next_ticket = 3;
}

abbrev answer : CheckpointResponse
answer = record { checkpoint_token = some (codes "u"); operations = none }

complete_success_lem_example :
    Extends
      ((accept_response same answer busy_manager).resolved
        ++ tickets same (batch_of same busy_manager)
        ++ busy_manager.force_checkpoint_promises)
      (complete_success same answer busy_manager).resolved
    × ((complete_success same answer busy_manager).queue ≡ busy_manager.queue)
    × ((complete_success same answer busy_manager).is_processing ≡ false)
complete_success_lem_example = complete_success_lem same answer busy_manager

busy_not_ended : busy_manager.termination_manager.is_terminated ≡ false
unfolding new_manager
busy_not_ended = refl

complete_failure_lem_example :
    (((complete_failure same throttled busy_manager).resolved ≡ busy_manager.resolved)
      ⊎ ((t : ℕ) × (busy_manager.queue_completion_resolver ≡ some t)
          × ((complete_failure same throttled busy_manager).resolved
              ≡ busy_manager.resolved ++ t ∷ [])))
    × ((complete_failure same throttled busy_manager).queue ≡ [])
    × ((complete_failure same throttled busy_manager).is_terminating ≡ true)
complete_failure_lem_example = complete_failure_lem same throttled busy_manager busy_not_ended
