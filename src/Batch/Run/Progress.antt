-- ===== src/Batch/Run/Progress.antt =====
-- concurrent-execution-handler.ts, `executeItemsConcurrently`: the states that a call goes through,
-- from its start, as the promises of its items settle in any order.
use aws_durable_execution_sd.Common.{
  ℕ, ◌-◌, ◌≤◌, ◌≡◌, refl, sym, ap, subst, Bool, not, ◌&&◌, ◌||◌, Option, none, some, List, [],
  length, ◌==◌, inl, inr, Bool-cases, arith,
}
use aws_durable_execution_sd.Batch.{
  BatchItem, ConcurrentExecutionItem, ConcurrencyConfig, CompletionReason,
}
use aws_durable_execution_sd.Batch.Result.{BatchResult, batch_result}
use aws_durable_execution_sd.Batch.Run.{
  Run, new_array, dense, try_start_next, conclude, initial_run, is_done, goes_on,
  execute_items_concurrently, Reached, begins, settles, resolve,
}
use aws_durable_execution_sd.Batch.Run.Slots.{dense-slots, AreItems, count_statuses_lem}
use aws_durable_execution_sd.Batch.Run.Invariant.{
  IsSound, IsReport, start_loop-IsSound, after, after-IsSound, settle-after,
}

module _ {R : Type 0} where
  batch_result-IsReport :
      (all : List (BatchItem R)) (reason : CompletionReason) (total : ℕ)
      → AreItems 0 all
      → length all ≤ total
      → IsReport total (batch_result all reason)
  unfolding batch_result
  batch_result-IsReport all reason total a w =
      let e = count_statuses_lem all 0 0 0 in
      record {
        items = a;
        within = w;
        successes = ground (arith, e);
        failures = ground (arith, e);
        starts = ground (arith, e);
      }

module _ {R T Percent : Type 0} (exceeds : ℕ → ℕ → Percent → Bool)
    (config : ConcurrencyConfig Percent) (items : List (ConcurrentExecutionItem T)) where
  resolve-IsSound :
      (r : Run R) (b : BatchResult R)
      → IsReport (length items) b
      → IsSound exceeds config items r
      → IsSound exceeds config items (resolve exceeds config items r b)
  resolve-IsSound r b p s = record {
    filled = s.filled;
    array = s.array;
    extent = s.extent;
    items = s.items;
    within = s.within;
    room = s.room;
    active = s.active;
    successes = s.successes;
    failures = s.failures;
    completed = s.completed;
    begun = s.begun;
    told = λ c e. first r.resolved c s.told e;
  }
    where
      first :
          (o : Option (BatchResult R)) (c : BatchResult R)
          → ((c : BatchResult R) → o ≡ some c → IsReport (length items) c)
          → elim o [ none ↦ some b | some f ↦ some f ] ≡ some c
          → IsReport (length items) c
      first none c t e = subst (IsReport (length items)) (ground (arith, e)) p
      first (some f) c t e = t c e

  pub try_start_next-IsSound :
      (r : Run R)
      → IsSound exceeds config items r
      → IsSound exceeds config items (try_start_next exceeds config items r)
  unfolding try_start_next
  try_start_next-IsSound r s =
      start_loop-IsSound exceeds config items (length items - r.current_index) r s

  conclude-IsSound :
      (r : Run R)
      → IsSound exceeds config items r
      → IsSound exceeds config items (conclude exceeds config items r)
  unfolding conclude
  conclude-IsSound r s =
      elim (Bool-cases (is_done exceeds config items r || not (goes_on exceeds config items r))) [
        | inl e ↦ rw e (
            resolve-IsSound r _
              (batch_result-IsReport (dense r.result_items) _ (length items)
                (subst (AreItems 0) (sym (filled_dense r s)) s.items)
                (subst (λ bs. length bs ≤ length items) (sym (filled_dense r s))
                  (ground (arith, s.extent, s.within))))
              s)
        | inr e ↦ rw e (try_start_next-IsSound r s)
      ]
    where
      filled_dense :
          (r : Run R) (s : IsSound exceeds config items r) → dense r.result_items ≡ s.filled
      filled_dense r s = subst (λ xs. dense xs ≡ s.filled) (sym s.array) (dense-slots s.filled _)

  initial-IsSound : IsSound {R = R} exceeds config items (initial_run exceeds config items)
  initial-IsSound = record {
    filled = [];
    array = ap new_array (let d : length items ≡ length items - 0 = omega arith in d);
    extent = refl;
    items = tt;
    within = omega arith;
    room = λ n e. omega arith;
    active = refl;
    successes = refl;
    failures = refl;
    completed = refl;
    begun = refl;
    told = λ b e. absurd (ground (arith, e));
  }

  execute-IsSound :
      IsSound {R = R} exceeds config items (execute_items_concurrently exceeds config items)
  unfolding execute_items_concurrently
  execute-IsSound = elim (Bool-cases (length items == 0)) [
    | inl e ↦ rw e (
        resolve-IsSound _ _ (batch_result-IsReport [] _ (length items) tt (omega arith))
          initial-IsSound)
    | inr e ↦ rw e (
        let begun =
          try_start_next {R = R} exceeds config items (initial_run exceeds config items) in
        let s = try_start_next-IsSound (initial_run exceeds config items) initial-IsSound in
        elim (Bool-cases (begun.active_count == 0 && begun.completed_count == 0)) [
          | inl f ↦ rw f (
              resolve-IsSound begun _ (batch_result-IsReport [] _ (length items) tt (omega arith))
                s)
          | inr f ↦ rw f s
        ])
  ]

  -- At every moment of a call: at most `maxConcurrency` items are on the way, where it is set and not 0; the items started are
  -- those of the first indices, in order; the counters are the numbers of items of each status; and
  -- the result that the promise was resolved with, if it was, lists started items in the order of
  -- their indices without a gap, each with the fields of its status, and counts them right.
  pub Reached-IsSound :
      (r : Run R) → Reached exceeds config items r → IsSound exceeds config items r
  Reached-IsSound r begins = execute-IsSound
  Reached-IsSound _ (settles {r = r} i x c h) =
      subst (IsSound exceeds config items) (sym (settle-after exceeds config items i x r)) (
        conclude-IsSound (after exceeds config items i x r)
          (after-IsSound exceeds config items i x r h (Reached-IsSound r c)))
