-- ===== src/Batch/Run.antt =====
-- packages/aws-durable-execution-sdk-js/src/handlers/concurrent-execution-handler/
-- concurrent-execution-handler.ts, `executeItemsConcurrently`. An item's promise settles after the
-- call that started it has returned, one at a time; `settle` is its `then` handler. The promise
-- that is returned takes the first result that it is resolved with.
pub mod Slots
pub mod Invariant
pub mod Progress
pub mod Liveness
pub mod Closed
use aws_durable_execution_sd.Common.{
  ℕ, zero, suc, ◌+◌, ◌-◌, ◌≡◌, Bool, true, false, not, ◌&&◌, ◌||◌, Option, none, some, List, [],
  ◌∷◌, ◌++◌, map, length, get_elem?, ltb, ◌==◌, is_some, if◌then◌else◌, Text,
}
use aws_durable_execution_sd.Batch.{
  BatchItem, BatchItemStatus, succeeded, failed, started, ConcurrentExecutionItem,
  CompletionItemStatus, CompletionStatus, CompletionConfig, ConcurrencyConfig, CompletionReason,
  JsError, Rejection, as_child_context_error,
}
use aws_durable_execution_sd.Batch.Result.{BatchResult, batch_result}
use aws_durable_execution_sd.Batch.Reason.{
  Tally, should_continue, is_complete, get_completion_reason,
}

-- The variables of the call. `active_count` items are started and not settled.
pub record Run (R : Type 0) : Type 0 where
  pub result_items : List (Option (BatchItem R))
  pub started_items : List ℕ
  pub active_count : ℕ
  pub current_index : ℕ
  pub completed_count : ℕ
  pub success_count : ℕ
  pub failure_count : ℕ
  pub resolved : Option (BatchResult R)

-- What a started item's promise does; the value that it is fulfilled with may be `undefined`.
pub data Settlement (R : Type 0) : Type 0 where
  fulfilled : Option R → Settlement R
  rejected : Rejection → Settlement R

module _ {A : Type 0} where
  -- `xs[i] = x`, for an index inside the array.
  unfoldable pub write : List A → ℕ → A → List A
  write [] i x = []
  write (y ∷ ys) zero x = x ∷ ys
  write (y ∷ ys) (suc i) x = y ∷ write ys i x

  -- `new Array(n)`: no element is set.
  unfoldable pub new_array : ℕ → List (Option A)
  new_array zero = []
  new_array (suc n) = none ∷ new_array n

  -- The elements that are set, in the order of their indices.
  unfoldable pub dense : List (Option A) → List A
  dense [] = []
  dense (none ∷ xs) = dense xs
  dense (some x ∷ xs) = x ∷ dense xs

  abbrev pub at_index : List (Option A) → ℕ → Option A
  at_index xs i = elim (get_elem? xs i) [ none ↦ none | some x ↦ x ]

-- `activeCount < maxConcurrency`, where `config.maxConcurrency || Infinity` is the bound.
abbrev pub has_room : Option ℕ → ℕ → Bool
has_room none active = true
has_room (some zero) active = true
has_room (some (suc n)) active = ltb active (suc n)

module _ {R T Percent : Type 0} (exceeds : ℕ → ℕ → Percent → Bool)
    (config : ConcurrencyConfig Percent) (items : List (ConcurrentExecutionItem T)) where
  unfoldable pub build_item_statuses : Run R → List CompletionItemStatus
  build_item_statuses r =
      map
        (λ item. record {
          index = item.index;
          name = item.name;
          status = elim (at_index r.result_items item.index) [
            | none ↦ none
            | some b ↦ some b.status
          ];
        })
        items

  abbrev pub tally : Run R → Tally
  tally r = record {
    success = r.success_count;
    failure = r.failure_count;
    completed = r.completed_count;
    total = length items;
  }

  unfoldable pub build_completion_status : Run R → CompletionStatus
  unfolding build_item_statuses
  build_completion_status r = record {
    success_count = r.success_count;
    failure_count = r.failure_count;
    completed_count = r.completed_count;
    total_count = length items;
    items = build_item_statuses r;
  }

  abbrev pub goes_on : Run R → Bool
  goes_on r = should_continue exceeds config.completion_config (tally r) (build_completion_status r)

  abbrev pub is_done : Run R → Bool
  is_done r = is_complete exceeds config.completion_config (tally r) (build_completion_status r)

  abbrev pub reason_now : Run R → CompletionReason
  reason_now r =
      get_completion_reason exceeds config.completion_config (tally r) (build_completion_status r)

  abbrev pub may_start : Run R → Bool
  may_start r =
      has_room config.max_concurrency r.active_count
      && ltb r.current_index (length items)
      && goes_on r

  -- The body of the loop, up to the call of `runInChildContext`.
  unfoldable pub start_item : Run R → Run R
  unfolding write
  start_item r = record r {
    current_index = r.current_index + 1;
    started_items = r.started_items ++ r.current_index ∷ [];
    active_count = r.active_count + 1;
    result_items =
        write r.result_items r.current_index (
          some (record { result = none; error = none; index = r.current_index; status = started }));
  }

  unfoldable pub start_loop : ℕ → Run R → Run R
  unfolding start_item
  start_loop zero r = r
  start_loop (suc n) r = let rest = start_loop n (start_item r) in if may_start r then rest else r

  -- Each turn takes an index, so as many turns as there are indices left are enough.
  unfoldable pub try_start_next : Run R → Run R
  unfolding start_loop
  try_start_next r = start_loop (length items - r.current_index) r

  -- A promise is resolved once.
  abbrev pub resolve : Run R → BatchResult R → Run R
  resolve r b = record r { resolved = elim r.resolved [ none ↦ some b | some first ↦ some first ] }

  -- `onComplete`, after its two counters.
  unfoldable pub conclude : Run R → Run R
  unfolding try_start_next dense batch_result
  conclude r =
      if is_done r || not (goes_on r)
      then resolve r (batch_result (dense r.result_items) (reason_now r))
      else try_start_next r

  unfoldable pub on_complete : Run R → Run R
  unfolding conclude
  on_complete r =
      conclude
        (record r { active_count = r.active_count - 1; completed_count = r.completed_count + 1 })

  unfoldable pub settle : ℕ → Settlement R → Run R → Run R
  unfolding on_complete write
  settle i (fulfilled x) r = on_complete (record r {
    result_items =
        write r.result_items i
          (some (record { result = x; error = none; index = i; status = succeeded }));
    success_count = r.success_count + 1;
  })
  settle i (rejected e) r = on_complete (record r {
    result_items = write r.result_items i (
        some (record {
          result = none;
          error = some (as_child_context_error e);
          index = i;
          status = failed;
        }));
    failure_count = r.failure_count + 1;
  })

  abbrev pub initial_run : Run R
  initial_run = record {
    result_items = new_array (length items);
    started_items = [];
    active_count = 0;
    current_index = 0;
    completed_count = 0;
    success_count = 0;
    failure_count = 0;
    resolved = none;
  }

  -- The call, up to the return of its promise.
  unfoldable pub execute_items_concurrently : Run R
  unfolding try_start_next batch_result new_array
  execute_items_concurrently =
      if length items == 0
      then resolve initial_run (batch_result [] (reason_now initial_run))
      else let begun = try_start_next initial_run in
        if begun.active_count == 0 && begun.completed_count == 0
        then resolve begun (batch_result [] (reason_now begun))
        else begun

  abbrev pub is_on_the_way : Run R → ℕ → Bool
  is_on_the_way r i = elim (at_index r.result_items i) [
    | none ↦ false
    | some b ↦ elim b.status [ started ↦ true | _ ↦ false ]
  ]

  -- The states that a call goes through, as the promises of its items settle.
  pub data Reached : Run R → Type 0 where
    begins : Reached execute_items_concurrently
    settles :
        {r : Run R} (i : ℕ) (x : Settlement R)
        → Reached r
        → is_on_the_way r i ≡ true
        → Reached (settle i x r)

  -- How many promises have settled.
  abbrev pub settlements : {r : Run R} → Reached r → ℕ
  settlements begins = 0
  settlements (settles i x c h) = settlements c + 1
