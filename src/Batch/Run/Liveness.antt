-- ===== src/Batch/Run/Liveness.antt =====
-- concurrent-execution-handler.ts, `executeItemsConcurrently`: a call ends.
use aws_durable_execution_sd.Common.{
  ℕ, zero, suc, ◌+◌, ◌-◌, ◌≤◌, ◌<◌, ◌≡◌, refl, sym, subst, Bool, true, false, not, ◌&&◌, ◌||◌,
  Option, none, some, List, [], ◌∷◌, length, ◌==◌, inl, inr, Bool-cases, arith,
}
use aws_durable_execution_sd.Batch.{
  BatchItem, ConcurrentExecutionItem, ConcurrencyConfig, CompletionConfig, started,
}
use aws_durable_execution_sd.Batch.Result.{BatchResult, is_started}
use aws_durable_execution_sd.Batch.Reason.{is_complete}
use aws_durable_execution_sd.Batch.Run.{
  Run, at_index, start_item, start_loop, try_start_next, conclude, has_room, may_start,
  is_on_the_way, initial_run, is_done, goes_on, execute_items_concurrently, Reached, begins,
  settles, settlements, build_completion_status, tally,
}
use aws_durable_execution_sd.Batch.Run.Slots.{slots, count}
use aws_durable_execution_sd.Batch.Run.Invariant.{IsSound, after, after-IsSound, settle-after}
use aws_durable_execution_sd.Batch.Run.Progress.{Reached-IsSound}

pub has_room_zero : (limit : Option ℕ) → has_room limit 0 ≡ true
has_room_zero none = refl
has_room_zero (some zero) = refl
has_room_zero (some (suc n)) = ground arith

module _ {R : Type 0} where
  some_started :
      (bs : List (BatchItem R)) (k : ℕ)
      → 0 < count (λ b. is_started b.status) bs
      → (i : ℕ) × (b : BatchItem R) × (at_index (slots bs k) i ≡ some b) × (b.status ≡ started)
  some_started [] k h = absurd (omega (arith, h))
  some_started (b ∷ bs) k h = elim (Bool-cases (is_started b.status)) [
    | inl e ↦ (0, b, refl, ground (arith, e))
    | inr e ↦ let (i, c, g, u) = some_started bs k (ground (arith, h, e)) in (suc i, c, g, u)
  ]

module _ {R T Percent : Type 0} (exceeds : ℕ → ℕ → Percent → Bool)
    (config : ConcurrencyConfig Percent) (items : List (ConcurrentExecutionItem T)) where
  -- The loop only adds to the items on the way, and settles and resolves nothing.
  start_loop_grows :
      (n : ℕ) (r : Run R)
      → (r.active_count ≤ (start_loop exceeds config items n r).active_count)
        × ((start_loop exceeds config items n r).resolved ≡ r.resolved)
        × ((start_loop exceeds config items n r).completed_count ≡ r.completed_count)
  unfolding start_loop start_item
  start_loop_grows zero r = (omega arith, refl, refl)
  start_loop_grows (suc n) r = elim (Bool-cases (may_start exceeds config items r)) [
    | inl e ↦ rw e (
        let (a, b, c) = start_loop_grows n (start_item exceeds config items r) in
        (omega (arith, a), b, c))
    | inr e ↦ rw e (omega arith, refl, refl)
  ]

  pub starts_one :
      (n : ℕ) (r : Run R)
      → 0 < n
      → may_start exceeds config items r ≡ true
      → r.active_count < (start_loop exceeds config items n r).active_count
  unfolding start_loop start_item
  starts_one zero r l h = absurd (omega (arith, l))
  starts_one (suc n) r l h =
      rw h
        (let (a, b, c) = start_loop_grows n (start_item exceeds config items r) in omega (arith, a))

  unfinished :
      (r : Run R)
      → is_done exceeds config items r ≡ false
      → (r.completed_count == length items) ≡ false
  unfolding is_complete
  unfinished r h = go config.completion_config h
    where
      go :
          (c : Option (CompletionConfig Percent))
          → is_complete exceeds c
              (tally exceeds config items r)
              (build_completion_status exceeds config items r)
            ≡ false
          → (r.completed_count == length items) ≡ false
      go none h = h
      go (some c) h = ground (arith, h)

  -- With nothing on the way and no reason to end, another item may start.
  can_start :
      (r : Run R)
      → IsSound exceeds config items r
      → (is_done exceeds config items r || not (goes_on exceeds config items r)) ≡ false
      → r.active_count ≡ 0
      → (may_start exceeds config items r ≡ true) × (r.current_index < length items)
  can_start r s e z =
      let d = unfinished r (ground (arith, e)) in
      let l : r.current_index < length items = ground (arith, s.begun, s.within, d, z) in
      let room : has_room config.max_concurrency r.active_count ≡ true =
        rw z (has_room_zero config.max_concurrency) in
      let on : goes_on exceeds config items r ≡ true = ground (arith, e) in
      (ground (arith, room, l, on), l)

  conclude_waits :
      (r : Run R)
      → IsSound exceeds config items r
      → (conclude exceeds config items r).resolved ≡ none
      → 0 < (conclude exceeds config items r).active_count
  unfolding conclude try_start_next
  conclude_waits r s =
      elim (Bool-cases (is_done exceeds config items r || not (goes_on exceeds config items r))) [
        | inl e ↦ rw e (λ h. absurd (no_result _ r.resolved h))
        | inr e ↦ rw e (λ h. elim (Bool-cases (r.active_count == 0)) [
          | inl z ↦
              let (m, l) = can_start r s e (ground (arith, z)) in
              let g = starts_one (length items - r.current_index) r (omega (arith, l)) m in
              omega (arith, g)
          | inr z ↦
              let (a, b, c) = start_loop_grows (length items - r.current_index) r in
              ground (arith, a, z)
        ])
      ]
    where
      no_result :
          (b : BatchResult R) (o : Option (BatchResult R))
          → elim o as (λ x. Option (BatchResult R)) [ none ↦ some b | some f ↦ some f ] ≡ none
          → ⊥
      no_result b none h = ground (arith, h)
      no_result b (some f) h = ground (arith, h)

  pub begun_grows :
      (r : Run R)
      → ((try_start_next exceeds config items r).resolved ≡ r.resolved)
        × ((try_start_next exceeds config items r).completed_count ≡ r.completed_count)
  unfolding try_start_next
  begun_grows r = let (a, b, c) = start_loop_grows (length items - r.current_index) r in (b, c)

  execute_waits :
      (execute_items_concurrently {R = R} exceeds config items).resolved ≡ none
      → 0 < (execute_items_concurrently {R = R} exceeds config items).active_count
  unfolding execute_items_concurrently
  execute_waits = elim (Bool-cases (length items == 0)) [
    | inl e ↦ rw e (λ h. absurd (ground (arith, h)))
    | inr e ↦ rw e (
        let begun =
          try_start_next {R = R} exceeds config items (initial_run exceeds config items) in
        let n : (begun.resolved ≡ none) × (begun.completed_count ≡ 0) =
          begun_grows (initial_run {R = R} exceeds config items) in
        elim (Bool-cases (begun.active_count == 0 && begun.completed_count == 0)) [
          | inl f ↦ rw f (λ h. absurd (ground (arith, h, n)))
          | inr f ↦ rw f (λ h. ground (arith, f, n))
        ])
  ]

  waits : (r : Run R) → Reached exceeds config items r → r.resolved ≡ none → 0 < r.active_count
  waits r begins = execute_waits
  waits _ (settles {r = r} i x c h) =
      subst (λ r. r.resolved ≡ none → 0 < r.active_count)
        (sym (settle-after exceeds config items i x r))
        (conclude_waits (after exceeds config items i x r)
          (after-IsSound exceeds config items i x r h (Reached-IsSound exceeds config items r c)))

  conclude-completed :
      (r : Run R) → (conclude exceeds config items r).completed_count ≡ r.completed_count
  unfolding conclude try_start_next
  conclude-completed r =
      let (a, b, c) = start_loop_grows (length items - r.current_index) r in ground (arith, c)

  settlements_counted :
      (r : Run R) (c : Reached exceeds config items r)
      → r.completed_count ≡ settlements exceeds config items c
  unfolding execute_items_concurrently try_start_next
  settlements_counted r begins =
      let (a, b, c) = start_loop_grows (length items) (initial_run {R = R} exceeds config items) in
      ground (arith, c)
  settlements_counted _ (settles {r = r} i x c h) =
      subst (λ s. s.completed_count ≡ settlements exceeds config items c + 1)
        (sym (settle-after exceeds config items i x r))
        (ground
          (arith, conclude-completed (after exceeds config items i x r), settlements_counted r c))

  -- A call never hangs: as long as its promise is not resolved, the promise of some item is on the way,
  -- whatever the limit, the settings or a custom predicate say. And no more promises settle than there
  -- are items.
  pub Reached-resolves :
      (r : Run R) (c : Reached exceeds config items r)
      → (settlements exceeds config items c ≤ length items)
        × (r.resolved ≡ none → (i : ℕ) × (is_on_the_way exceeds config items r i ≡ true))
  Reached-resolves r c =
      let s = Reached-IsSound exceeds config items r c in
      (
        ground (arith, settlements_counted r c, s.begun, s.within),
        λ h.
            let (i, b, e, u) =
              some_started s.filled (length items - r.current_index)
                (ground (arith, waits r c h, s.active)) in
            (i, on_it r i b (subst (λ xs. at_index xs i ≡ some b) (sym s.array) e) u),
      )
    where
      on_it :
          (r : Run R) (i : ℕ) (b : BatchItem R)
          → at_index r.result_items i ≡ some b
          → b.status ≡ started
          → is_on_the_way exceeds config items r i ≡ true
      on_it r i b e u = ground (arith, e, u)
