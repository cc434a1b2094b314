-- ===== src/Batch/Run/Closed.antt =====
-- concurrent-execution-handler.ts, `executeItemsConcurrently`: after the promise is resolved, the
-- items on the way go on to settle, and `onComplete` is called again.
use aws_durable_execution_sd.Common.{
  ℕ, zero, suc, ◌-◌, ◌≤◌, ◌≡◌, ◌≢◌, refl, sym, ◌∙◌, subst, Bool, true, false, not, ◌&&◌, ◌||◌,
  Option, none, some, List, length, if◌then◌else◌, ◌==◌, inl, inr, Bool-cases, arith,
}
use aws_durable_execution_sd.Batch.{
  ConcurrentExecutionItem, ConcurrencyConfig, CompletionConfig, CompletionStatus,
}
use aws_durable_execution_sd.Batch.Reason.{Tally, should_continue, is_complete}
use aws_durable_execution_sd.Batch.Reason.Agreement.{IsThreshold}
use aws_durable_execution_sd.Batch.Run.{
  Run, Settlement, start_loop, try_start_next, conclude, settle, may_start, is_on_the_way,
  initial_run, is_done, goes_on, execute_items_concurrently, Reached, begins, settles, tally,
  build_completion_status,
}
use aws_durable_execution_sd.Batch.Run.Invariant.{IsSound, after, after-IsSound, settle-after}
use aws_durable_execution_sd.Batch.Run.Progress.{Reached-IsSound}
use aws_durable_execution_sd.Batch.Run.Liveness.{begun_grows, starts_one, has_room_zero}

module _ {Percent : Type 0} (exceeds : ℕ → ℕ → Percent → Bool) where
  -- More failures never fall back under a percentage.
  abbrev pub IsMonotone : Type 0
  IsMonotone = (f g n : ℕ) (p : Percent) → f ≤ g → exceeds f n p ≡ true → exceeds g n p ≡ true

  -- The call is over: all items are completed, or enough of them, or too many have failed.
  abbrev pub over : Option (CompletionConfig Percent) → Tally → CompletionStatus → Bool
  over c t s = is_complete exceeds c t s || not (should_continue exceeds c t s)

  -- A setting without a predicate does not read the items' statuses.
  over_same :
      (c : Option (CompletionConfig Percent)) (t : Tally) (s v : CompletionStatus)
      → IsThreshold c
      → over c t s ≡ over c t v
  unfolding is_complete should_continue
  over_same none t s v h = refl
  over_same (some c) t s v h = rw h refl

  over_complete :
      (c : Option (CompletionConfig Percent)) (t : Tally) (s : CompletionStatus)
      → t.completed ≡ t.total
      → over c t s ≡ true
  unfolding is_complete
  over_complete none t s e = ground (arith, e)
  over_complete (some c) t s e = ground (arith, e)

  over_stays :
      (c : Option (CompletionConfig Percent)) (t u : Tally) (s v : CompletionStatus)
      → IsThreshold c
      → IsMonotone
      → t.success ≤ u.success
      → t.failure ≤ u.failure
      → t.total ≡ u.total
      → t.completed ≢ t.total
      → over c t s ≡ true
      → over c u v ≡ true
  unfolding is_complete should_continue
  over_stays none t u s v h m a b e n o = ground arith
  over_stays (some c) t u s v h m a b e n o = go c.tolerated_failure_percentage refl
    where
      go : (p : Option Percent) → c.tolerated_failure_percentage ≡ p → over (some c) u v ≡ true
      go none q = ground (arith, h, o, q)
      go (some p) q = ground (arith, h, o, q, m t.failure u.failure u.total p)

module _ {R T Percent : Type 0} (exceeds : ℕ → ℕ → Percent → Bool)
    (config : ConcurrencyConfig Percent) (items : List (ConcurrentExecutionItem T)) where
  abbrev pub IsClosed : Run R → Type 0
  IsClosed r =
      over exceeds config.completion_config (tally exceeds config items r)
        (build_completion_status exceeds config items r)
      ≡ true

  on_the_way_incomplete :
      (i : ℕ) (x : Settlement R) (r : Run R)
      → IsSound exceeds config items r
      → is_on_the_way exceeds config items r i ≡ true
      → r.completed_count ≢ length items
  on_the_way_incomplete i x r s h e =
      let a = after-IsSound exceeds config items i x r h s in
      ground (arith, a.begun, s.begun, s.within, e)

  after-IsClosed :
      (i : ℕ) (x : Settlement R) (r : Run R)
      → IsThreshold config.completion_config
      → IsMonotone exceeds
      → IsSound exceeds config items r
      → is_on_the_way exceeds config items r i ≡ true
      → IsClosed r
      → IsClosed (after exceeds config items i x r)
  after-IsClosed i x r h m s w o =
      over_stays exceeds config.completion_config (tally exceeds config items r) _ _ _ h m
        (omega arith) (omega arith) refl (on_the_way_incomplete i x r s w) o

  conclude-IsClosed :
      (r : Run R)
      → IsClosed r
      → ((conclude exceeds config items r).current_index ≡ r.current_index)
        × ((conclude exceeds config items r).started_items ≡ r.started_items)
  unfolding conclude
  conclude-IsClosed r o = rw o (refl, refl)

  IsClosed-if :
      (b : Bool) (r q : Run R)
      → (b ≡ true → IsClosed r)
      → (b ≡ false → q.resolved ≢ none → IsClosed q)
      → (if b then r else q).resolved ≢ none
      → IsClosed (if b then r else q)
  IsClosed-if true r q h k n = h refl
  IsClosed-if false r q h k n = k refl n

  -- Only a call that is over has resolved its promise.
  conclude-resolved :
      (r : Run R)
      → IsThreshold config.completion_config
      → (r.resolved ≢ none → IsClosed r)
      → (conclude exceeds config items r).resolved ≢ none
      → IsClosed (conclude exceeds config items r)
  unfolding conclude
  conclude-resolved r h k =
      IsClosed-if (is_done exceeds config items r || not (goes_on exceeds config items r)) _ _
        (λ o. over_same exceeds config.completion_config (tally exceeds config items r) _ _ h ∙ o)
        (λ o n. absurd (ground (arith, o, k (λ e. n ((begun_grows exceeds config items r).0 ∙ e)))))

  abbrev start : Run R
  start = initial_run exceeds config items

  stuck_start :
      length items ≢ 0
      → (try_start_next exceeds config items start).active_count ≡ 0
      → (goes_on exceeds config items start ≡ false)
        × (try_start_next exceeds config items start ≡ start)
  unfolding try_start_next start_loop
  stuck_start l z = elim (Bool-cases (may_start exceeds config items start)) [
    | inl m ↦ absurd (
        ground (
          arith,
          z,
          starts_one exceeds config items (length items - 0) start (ground (arith, l)) m,
        ))
    | inr m ↦
        (ground (arith, m, l, has_room_zero config.max_concurrency), stays (length items - 0) m)
  ]
    where
      stays :
          (n : ℕ)
          → may_start exceeds config items start ≡ false
          → start_loop exceeds config items n start ≡ start
      stays zero m = refl
      stays (suc n) m = rw m refl

  execute-IsClosed :
      IsThreshold config.completion_config
      → (execute_items_concurrently {R = R} exceeds config items).resolved ≢ none
      → IsClosed (execute_items_concurrently {R = R} exceeds config items)
  unfolding execute_items_concurrently
  execute-IsClosed h =
      let begun = try_start_next exceeds config items start in
      IsClosed-if (length items == 0) _ _
        (λ e. over_complete exceeds config.completion_config _ _ (ground (arith, e)))
        (λ e.
          IsClosed-if (begun.active_count == 0 && begun.completed_count == 0) _ _
            (λ f.
              over_same exceeds config.completion_config (tally exceeds config items begun) _
                (build_completion_status exceeds config items begun) h
              ∙ (let (g, q) = stuck_start (ground (arith, e)) (ground (arith, f)) in
                  subst IsClosed (sym q) (ground (arith, g))))
            (λ f n. absurd (n ((begun_grows exceeds config items start).0))))

  Reached-IsClosed :
      (r : Run R)
      → IsThreshold config.completion_config
      → IsMonotone exceeds
      → Reached exceeds config items r
      → r.resolved ≢ none
      → IsClosed r
  Reached-IsClosed r h m begins = execute-IsClosed h
  Reached-IsClosed _ h m (settles {r = r} i x c w) =
      subst (λ r. r.resolved ≢ none → IsClosed r) (sym (settle-after exceeds config items i x r))
        (conclude-resolved (after exceeds config items i x r) h (λ n.
          after-IsClosed i x r h m (Reached-IsSound exceeds config items r c) w
            (Reached-IsClosed r h m c n)))

  -- Without a custom predicate, and where more failures never fall back under a percentage, no item
  -- is started once the promise is resolved, while those on the way settle.
  pub settle-Reached :
      (i : ℕ) (x : Settlement R) (r : Run R)
      → IsThreshold config.completion_config
      → IsMonotone exceeds
      → Reached exceeds config items r
      → is_on_the_way exceeds config items r i ≡ true
      → r.resolved ≢ none
      → ((settle exceeds config items i x r).started_items ≡ r.started_items)
        × ((settle exceeds config items i x r).current_index ≡ r.current_index)
  settle-Reached i x r h m c w n =
      let o =
        after-IsClosed i x r h m (Reached-IsSound exceeds config items r c) w
          (Reached-IsClosed r h m c n) in
      let (a, b) = conclude-IsClosed (after exceeds config items i x r) o in
      subst (λ q. (q.started_items ≡ r.started_items) × (q.current_index ≡ r.current_index))
        (sym (settle-after exceeds config items i x r)) (b, a)
