-- ===== src/Checkpoint/Polling.antt =====
-- checkpoint-manager.ts: the timers of the poll loops, and `dispose`, which clears them.
use aws_durable_execution_sd.Common.{
  ℕ, ◌+◌, ◌≤◌, ◌<◌, ◌≡◌, ◌⊎◌, refl, true, false, Option, none, some, List, [], ◌∷◌, map, Text, All,
  get_or, inl, inr, Bool-cases, Option-cases, arith,
}
use aws_durable_execution_sd.Checkpoint.{
  CheckpointManager, OperationInfo, max_timer_delay_ms, min_remaining_time_to_poll_ms,
}
use aws_durable_execution_sd.Checkpoint.Terminate.{cleanup_all_operations, quiet}
use aws_durable_execution_sd.Checkpoint.Timers.{
  Remaining, millis, infinite, find_info, put_info, first_delay, next_delay, dispose,
  start_timer_with_polling, cannot_schedule,
}

-- A delay that a timer can hold and that ends a second before the invocation does.
abbrev pub Fits : Remaining → ℕ → Type 0
Fits infinite delay = delay ≤ max_timer_delay_ms
Fits (millis left) delay =
    (delay ≤ max_timer_delay_ms) × (delay + min_remaining_time_to_poll_ms ≤ left)

schedulable : (r : Remaining) (delay : ℕ) → cannot_schedule r delay ≡ false → Fits r delay
schedulable infinite delay h = ground (arith, h)
schedulable (millis left) delay h = ground (arith, h)

abbrev pub armed : ℕ → OperationInfo → OperationInfo
armed delay op = record op { poll_count = some (get_or op.poll_count 0); timer = some delay }

-- The first poll of `startTimerWithPolling`, which alone makes these tests: it changes nothing, or the manager is not disposed and it arms the operation's
-- timer, and no more: until the operation's end, or for the first poll's delay where no end is known,
-- and only with a delay that a timer can hold and with a second of the invocation left when it fires.
pub start_timer_with_polling-Fits :
    (r : Remaining) (now : ℕ) (id : Text) (end_timestamp : Option ℕ) (m : CheckpointManager)
    → (start_timer_with_polling r now id end_timestamp m ≡ m)
      ⊎ ((op : OperationInfo) × (find_info m id ≡ some op)
          × (m.disposed ≡ false)
          × Fits r (first_delay now end_timestamp)
          × (start_timer_with_polling r now id end_timestamp m
              ≡ put_info id (armed (first_delay now end_timestamp) op) m))
unfolding start_timer_with_polling
start_timer_with_polling-Fits r now id e m = elim (Bool-cases m.disposed) [
  | inl d ↦ inl (simp d refl)
  | inr d ↦ elim (Option-cases (find_info m id)) [
    | inl f ↦ inl (simp (d, f) refl)
    | inr (op, f) ↦ elim (Bool-cases (cannot_schedule r (first_delay now e))) [
      | inl c ↦ inl (simp (d, f, c) refl)
      | inr c ↦ inr (op, f, d, schedulable r (first_delay now e) c, simp (d, f, c) refl)
    ]
  ]
]

-- From its first count on, the poll loop waits between one second and one minute, and never less than
-- the time before.
pub next_delay_lem :
    (polls : ℕ)
    → 0 < polls
    → (1000 ≤ next_delay polls)
      × (next_delay polls ≤ 60000)
      × (next_delay polls ≤ next_delay (polls + 1))
next_delay_lem polls h = ground arith

abbrev pub IsQuiet : CheckpointManager → Type 0
IsQuiet m =
    All (λ (e : Text × OperationInfo). (e.1.timer ≡ none) × (e.1.resolver ≡ none)) m.operations

-- Disposing a manager that is not disposed yet leaves no timer armed and no promise of an operation to resolve, and a second
-- call changes nothing.
pub dispose_lem :
    (m : CheckpointManager)
    → m.disposed ≡ false
    → ((dispose m).disposed ≡ true)
      × ((dispose m).termination_timer ≡ none)
      × IsQuiet (dispose m)
      × (dispose (dispose m) ≡ dispose m)
unfolding dispose cleanup_all_operations
dispose_lem m h = rw h (refl, refl, quieted m.operations, refl)
  where
    quieted :
        (es : List (Text × OperationInfo))
        → All
            (λ (e : Text × OperationInfo). (e.1.timer ≡ none) × (e.1.resolver ≡ none))
            (map (λ e. (e.0, quiet e.1)) es)
    quieted [] = tt
    quieted (e ∷ es) = ((refl, refl), quieted es)
