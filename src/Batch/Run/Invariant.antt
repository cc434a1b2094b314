-- ===== src/Batch/Run/Invariant.antt =====
-- concurrent-execution-handler.ts, `executeItemsConcurrently`: what holds between two settlements.
use aws_durable_execution_sd.Common.{
  ℕ, zero, suc, ◌+◌, ◌-◌, ◌≤◌, ◌<◌, ◌≡◌, refl, sym, ap, subst, Bool, true, Option, none, some, List,
  [], ◌∷◌, ◌++◌, length, length-append, inl, inr, Bool-cases, Option-cases, arith,
}
use aws_durable_execution_sd.Batch.{
  BatchItem, BatchItemStatus, succeeded, failed, started, ConcurrentExecutionItem,
  ConcurrencyConfig, as_child_context_error,
}
use aws_durable_execution_sd.Batch.Result.{BatchResult, is_succeeded, is_failed, is_started}
use aws_durable_execution_sd.Batch.Run.{
  Run, Settlement, fulfilled, rejected, write, at_index, start_item, start_loop, conclude,
  on_complete, settle, has_room, may_start, is_on_the_way,
}
use aws_durable_execution_sd.Batch.Run.Slots.{
  slots, write-slots_end, write-slots, at_index-slots, count, count-append, count-write, IsItem,
  AreItems, AreItems-append, AreItems-write, length-write, tell,
}

abbrev pub count_of : {R : Type 0} → (BatchItemStatus → Bool) → List (BatchItem R) → ℕ
count_of p bs = count (λ b. p b.status) bs

-- A result as `BatchResultImpl` reports it: items in order, with the counts of their statuses.
pub record IsReport {R : Type 0} (total : ℕ) (b : BatchResult R) : Type 0 where
  pub items : AreItems 0 b.all
  pub within : length b.all ≤ total
  pub successes : b.success_count ≡ count_of is_succeeded b.all
  pub failures : b.failure_count ≡ count_of is_failed b.all
  pub starts : b.started_count ≡ count_of is_started b.all

-- The counters agree with the items that are set, which are `filled`.
pub record Sound {R : Type 0} (total : ℕ) (limit : Option ℕ) (r : Run R) : Type 0 where
  pub filled : List (BatchItem R)
  pub array : r.result_items ≡ slots filled (total - r.current_index)
  pub extent : length filled ≡ r.current_index
  pub items : AreItems 0 filled
  pub within : r.current_index ≤ total
  pub room : (n : ℕ) → limit ≡ some (suc n) → r.active_count ≤ suc n
  pub active : count_of is_started filled ≡ r.active_count
  pub successes : count_of is_succeeded filled ≡ r.success_count
  pub failures : count_of is_failed filled ≡ r.failure_count
  pub completed : r.success_count + r.failure_count ≡ r.completed_count
  pub begun : r.active_count + r.completed_count ≡ r.current_index
  pub told : (b : BatchResult R) → r.resolved ≡ some b → IsReport total b

module _ {R T Percent : Type 0} (exceeds : ℕ → ℕ → Percent → Bool)
    (config : ConcurrencyConfig Percent) (items : List (ConcurrentExecutionItem T)) where
  abbrev pub IsSound : Run R → Type 0
  IsSound = Sound (length items) config.max_concurrency

  array_next :
      (filled : List (BatchItem R)) (b : BatchItem R) (t c : ℕ)
      → length filled ≡ c
      → c < t
      → write (slots filled (t - c)) c (some b) ≡ slots (filled ++ b ∷ []) (t - (c + 1))
  array_next filled b t c e l =
      subst (λ k. write (slots filled k) c (some b) ≡ slots (filled ++ b ∷ []) (t - (c + 1)))
        (let e2 : suc (t - (c + 1)) ≡ t - c = omega arith in e2)
        (subst
          (λ d.
            write (slots filled (suc (t - (c + 1)))) d (some b)
            ≡ slots (filled ++ b ∷ []) (t - (c + 1)))
          e (write-slots_end filled (t - (c + 1)) b))

  abbrev started_item : ℕ → BatchItem R
  started_item i = record { result = none; error = none; index = i; status = started }

  start_item-IsSound :
      (r : Run R)
      → has_room config.max_concurrency r.active_count ≡ true
      → r.current_index < length items
      → IsSound r
      → IsSound (start_item exceeds config items r)
  unfolding start_item
  start_item-IsSound r free left s = record {
    filled = s.filled ++ started_item r.current_index ∷ [];
    array =
        subst
          (λ xs.
            write xs r.current_index (some (started_item r.current_index))
            ≡ slots (s.filled ++ started_item r.current_index ∷ [])
                (length items - (r.current_index + 1)))
          (sym s.array)
          (array_next s.filled (started_item r.current_index) (length items) r.current_index
            s.extent left);
    extent = omega (arith, length-append s.filled (started_item r.current_index ∷ []), s.extent);
    items =
        AreItems-append 0 s.filled (started_item r.current_index) s.items (ground (arith, s.extent))
          (refl, refl);
    within = omega arith;
    room = λ n e. room_for n e free;
    active = omega (
      arith,
      count-append (λ b. is_started b.status) s.filled (started_item r.current_index),
      s.active,
    );
    successes = omega (
      arith,
      count-append (λ b. is_succeeded b.status) s.filled (started_item r.current_index),
      s.successes,
    );
    failures = omega (
      arith,
      count-append (λ b. is_failed b.status) s.filled (started_item r.current_index),
      s.failures,
    );
    completed = s.completed;
    begun = omega (arith, s.begun);
    told = s.told;
  }
    where
      room_for :
          (n : ℕ)
          → config.max_concurrency ≡ some (suc n)
          → has_room config.max_concurrency r.active_count ≡ true
          → r.active_count + 1 ≤ suc n
      room_for n e f = ground arith

  pub start_loop-IsSound :
      (n : ℕ) (r : Run R) → IsSound r → IsSound (start_loop exceeds config items n r)
  unfolding start_loop
  start_loop-IsSound zero r s = s
  start_loop-IsSound (suc n) r s = elim (Bool-cases (may_start exceeds config items r)) [
    | inl e ↦ rw e (
        start_loop-IsSound n (start_item exceeds config items r)
          (start_item-IsSound r (ground arith) (ground arith) s))
    | inr e ↦ rw e s
  ]

  -- The variables after a settlement, before `onComplete` decides.
  abbrev pub settled_item : ℕ → Settlement R → BatchItem R
  settled_item i (fulfilled x) = record { result = x; error = none; index = i; status = succeeded }
  settled_item i (rejected e) = record {
    result = none;
    error = some (as_child_context_error e);
    index = i;
    status = failed;
  }

  abbrev pub after : ℕ → Settlement R → Run R → Run R
  after i x r = record r {
    result_items = write r.result_items i (some (settled_item i x));
    success_count = r.success_count + tell (is_succeeded (settled_item i x).status);
    failure_count = r.failure_count + tell (is_failed (settled_item i x).status);
    active_count = r.active_count - 1;
    completed_count = r.completed_count + 1;
  }

  pub settle-after :
      (i : ℕ) (x : Settlement R) (r : Run R)
      → settle exceeds config items i x r ≡ conclude exceeds config items (after i x r)
  unfolding settle on_complete
  settle-after i (fulfilled x) r = ap (conclude exceeds config items) (ground arith)
  settle-after i (rejected e) r = ap (conclude exceeds config items) (ground arith)

  pub on_the_way :
      (r : Run R) (i : ℕ)
      → is_on_the_way exceeds config items r i ≡ true
      → (b : BatchItem R) × (at_index r.result_items i ≡ some b) × (b.status ≡ started)
  on_the_way r i h = elim (Option-cases (at_index r.result_items i)) [
    | inl e ↦ absurd (ground arith)
    | inr (b, e) ↦ (b, e, ground arith)
  ]

  settled_item-IsItem : (i : ℕ) (x : Settlement R) → IsItem (settled_item i x)
  settled_item-IsItem i (fulfilled x) = refl
  settled_item-IsItem i (rejected e) = (refl, (as_child_context_error e, refl))

  settled_item-index : (i : ℕ) (x : Settlement R) → (settled_item i x).index ≡ i
  settled_item-index i (fulfilled x) = refl
  settled_item-index i (rejected e) = refl

  settled_item-status :
      (i : ℕ) (x : Settlement R)
      → (tell (is_started (settled_item i x).status) ≡ 0)
        × (tell (is_succeeded (settled_item i x).status)
              + tell (is_failed (settled_item i x).status)
            ≡ 1)
  settled_item-status i (fulfilled x) = ground arith
  settled_item-status i (rejected e) = ground arith

  pub after-IsSound :
      (i : ℕ) (x : Settlement R) (r : Run R)
      → is_on_the_way exceeds config items r i ≡ true
      → IsSound r
      → IsSound (after i x r)
  after-IsSound i x r h s =
      let (b, e, u) = on_the_way r i h in
      let g =
        at_index-slots s.filled (length items - r.current_index) i b
          (subst (λ xs. at_index xs i ≡ some b) s.array e) in
      let c = settled_item i x in
      let a = count-write (λ b. is_started b.status) s.filled i b c g in
      let p = count-write (λ b. is_succeeded b.status) s.filled i b c g in
      let q = count-write (λ b. is_failed b.status) s.filled i b c g in
      let t = settled_item-status i x in
      let su : tell (is_started b.status) ≡ 1 = ground (arith, u) in
      let sp : tell (is_succeeded b.status) ≡ 0 = ground (arith, u) in
      let sq : tell (is_failed b.status) ≡ 0 = ground (arith, u) in
      record {
        filled = write s.filled i c;
        array =
            subst
              (λ xs.
                write xs i (some c) ≡ slots (write s.filled i c) (length items - r.current_index))
              (sym s.array) (write-slots s.filled (length items - r.current_index) i b c g);
        extent = ground (arith, length-write s.filled i c, s.extent);
        items =
            AreItems-write 0 s.filled i c s.items (ground (arith, settled_item-index i x))
              (settled_item-IsItem i x);
        within = s.within;
        room = λ n e. ground (arith, s.room n e);
        active = omega (arith, a, t, su, s.active);
        successes = omega (arith, p, sp, s.successes);
        failures = omega (arith, q, sq, s.failures);
        completed = omega (arith, t, s.completed);
        begun = omega (arith, a, t, su, s.active, s.begun);
        told = s.told;
      }
