-- ===== src/Batch/Replay/Outcomes.antt =====
-- concurrent-execution-handler.ts, `executeItemsConcurrently`: the slots of the items against the
-- outcomes of their promises.
use aws_durable_execution_sd.Common.{
  ℕ, zero, suc, ◌+◌, ◌-◌, ◌<◌, ◌≡◌, ◌≢◌, ◌⊎◌, refl, sym, ap, subst, ◌∙◌, Bool, true, false, not,
  ◌&&◌, ◌||◌, Option, none, some, List, [], ◌∷◌, length, get_elem?, ◌==◌, if◌then◌else◌, get_or,
  inl, inr, Bool-cases, arith,
}
use aws_durable_execution_sd.Batch.{BatchItem, started, ConcurrentExecutionItem, ConcurrencyConfig}
use aws_durable_execution_sd.Batch.Run.{
  Run, Settlement, write, at_index, new_array, start_item, start_loop, try_start_next, conclude,
  may_start, is_on_the_way, is_done, goes_on, initial_run, execute_items_concurrently, Reached,
  begins, settles,
}
use aws_durable_execution_sd.Batch.Run.Slots.{slots, at_index-slots}
use aws_durable_execution_sd.Batch.Run.Invariant.{
  IsSound, after, settle-after, settled_item, on_the_way,
}
use aws_durable_execution_sd.Batch.Run.Progress.{Reached-IsSound}

by_equal : (k i : ℕ) → ((k ≡ i) × ((k == i) ≡ true)) ⊎ ((k ≢ i) × ((k == i) ≡ false))
by_equal k i = elim (Bool-cases (k == i)) [
  | inl e ↦ inl (ground (arith, e), e)
  | inr e ↦ inr (λ p. absurd (ground (arith, e, p)), e)
]

length-new_array : (A : Type 0) (n : ℕ) → length (new_array {A = A} n) ≡ n
unfolding new_array
length-new_array A zero = refl
length-new_array A (suc n) = ap suc (length-new_array A n)

module _ {A : Type 0} where
  at_index-write_other :
      (xs : List (Option A)) (i k : ℕ) (v : Option A)
      → k ≢ i
      → at_index (write xs i v) k ≡ at_index xs k
  unfolding write
  at_index-write_other [] i k v n = refl
  at_index-write_other (x ∷ xs) zero zero v n = absurd (n refl)
  at_index-write_other (x ∷ xs) zero (suc k) v n = refl
  at_index-write_other (x ∷ xs) (suc i) zero v n = refl
  at_index-write_other (x ∷ xs) (suc i) (suc k) v n =
      at_index-write_other xs i k v (λ e. n (ap suc e))

  at_index-write_same :
      (xs : List (Option A)) (i : ℕ) (v : Option A) (b : A)
      → at_index xs i ≡ some b
      → at_index (write xs i v) i ≡ v
  unfolding write
  at_index-write_same [] i v b h = absurd (ground (arith, h))
  at_index-write_same (x ∷ xs) zero v b h = refl
  at_index-write_same (x ∷ xs) (suc i) v b h = at_index-write_same xs i v b h

  at_index-written :
      (xs : List (Option A)) (i : ℕ) (b c : A) → at_index (write xs i (some b)) i ≡ some c → b ≡ c
  unfolding write
  at_index-written [] i b c h = absurd (ground (arith, h))
  at_index-written (x ∷ xs) zero b c h = ground (arith, h)
  at_index-written (x ∷ xs) (suc i) b c h = at_index-written xs i b c h

  at_index-unset : (n k : ℕ) → at_index {A = A} (new_array n) k ≡ none
  unfolding new_array
  at_index-unset zero k = refl
  at_index-unset (suc n) zero = refl
  at_index-unset (suc n) (suc k) = at_index-unset n k

  below_length : (xs : List A) (i : ℕ) (b : A) → get_elem? xs i ≡ some b → i < length xs
  below_length [] i b h = absurd (ground (arith, h))
  below_length (x ∷ xs) zero b h = omega arith
  below_length (x ∷ xs) (suc i) b h = omega (arith, below_length xs i b h)

  pub length-slots : (bs : List A) (k : ℕ) → length (slots bs k) ≡ length bs + k
  length-slots [] k = length-new_array A k ∙ (let e : k ≡ 0 + k = omega arith in e)
  length-slots (b ∷ bs) k = omega (arith, length-slots bs k)

  pub get_elem-at_index :
      (xs : List (Option A)) (k : ℕ) (x : Option A) → get_elem? xs k ≡ some x → at_index xs k ≡ x
  get_elem-at_index xs k x h = ground (arith, h)

module _ {R T Percent : Type 0} (exceeds : ℕ → ℕ → Percent → Bool)
    (config : ConcurrencyConfig Percent) (items : List (ConcurrentExecutionItem T)) where
  -- How the promise of an item has settled.
  abbrev pub outcome_of : {r : Run R} → Reached exceeds config items r → ℕ → Option (Settlement R)
  outcome_of begins k = none
  outcome_of (settles i x c h) k = if k == i then some x else outcome_of c k

  abbrev pub ended : ℕ → Settlement R → BatchItem R
  ended = settled_item exceeds config items

  -- The slot of an item holds its outcome, and is unset or started where there is none.
  abbrev pub Matches : Option (BatchItem R) → ℕ → Option (Settlement R) → Type 0
  Matches o k none = (b : BatchItem R) → o ≡ some b → b.status ≡ started
  Matches o k (some x) = o ≡ some (ended k x)

  abbrev IsMatched : Run R → (ℕ → Option (Settlement R)) → Type 0
  IsMatched r out =
      (k : ℕ)
      → Matches (at_index r.result_items k) k (out k)
        × ((x : Settlement R) → out k ≡ some x → k < r.current_index)

  set_is_ended :
      (o : Option (BatchItem R)) (k : ℕ) (out : Option (Settlement R)) (x : Settlement R)
      → Matches o k out
      → out ≡ some x
      → o ≡ some (ended k x)
  set_is_ended o k none x m e = absurd (ground (arith, e))
  set_is_ended o k (some y) x m e = m ∙ ap (λ z. some (ended k (get_or z y))) e

  no_outcome : (o : Option (Settlement R)) → ((x : Settlement R) → o ≡ some x → ⊥) → o ≡ none
  no_outcome none h = refl
  no_outcome (some x) h = absurd (h x refl)

  unended-Matches :
      (o : Option (BatchItem R)) (k : ℕ) (out : Option (Settlement R))
      → ((b : BatchItem R) → o ≡ some b → b.status ≡ started)
      → out ≡ none
      → Matches o k out
  unended-Matches o k none h e = h
  unended-Matches o k (some x) h e = absurd (ground (arith, e))

  start_item-IsMatched :
      (r : Run R) (out : ℕ → Option (Settlement R))
      → IsMatched r out
      → IsMatched (start_item exceeds config items r) out
  unfolding start_item
  start_item-IsMatched r out m k = elim (by_equal k r.current_index) [
    | inl (p, e) ↦ (
      unended-Matches _ k (out k)
          (λ b q. sym (
            ap (λ (c : BatchItem R). c.status)
              (at_index-written r.result_items r.current_index begun b (
                subst (λ j. at_index (write r.result_items r.current_index (some begun)) j ≡ some b)
                  p q))))
          (no_outcome (out k) (λ x q. absurd (omega (arith, (m k).1 x q, p)))),
      λ x q. omega (arith, (m k).1 x q),
    )
    | inr (n, e) ↦ (
      subst (λ o. Matches o k (out k))
          (sym (at_index-write_other r.result_items r.current_index k _ n)) (m k).0,
      λ x q. omega (arith, (m k).1 x q),
    )
  ]
    where
      begun : BatchItem R
      begun = record { result = none; error = none; index = r.current_index; status = started }

  start_loop-IsMatched :
      (n : ℕ) (r : Run R) (out : ℕ → Option (Settlement R))
      → IsMatched r out
      → IsMatched (start_loop exceeds config items n r) out
  unfolding start_loop
  start_loop-IsMatched zero r out m = m
  start_loop-IsMatched (suc n) r out m = elim (Bool-cases (may_start exceeds config items r)) [
    | inl e ↦ rw e (
        start_loop-IsMatched n (start_item exceeds config items r) out
          (start_item-IsMatched r out m))
    | inr e ↦ rw e m
  ]

  conclude-IsMatched :
      (r : Run R) (out : ℕ → Option (Settlement R))
      → IsMatched r out
      → IsMatched (conclude exceeds config items r) out
  unfolding conclude try_start_next
  conclude-IsMatched r out m =
      elim (Bool-cases (is_done exceeds config items r || not (goes_on exceeds config items r))) [
        | inl e ↦ rw e m
        | inr e ↦ rw e (start_loop-IsMatched (length items - r.current_index) r out m)
      ]

  initial-IsMatched : IsMatched (initial_run exceeds config items) (λ k. none)
  initial-IsMatched k = (
    λ b e. absurd (ground (arith, e, at_index-unset {A = BatchItem R} (length items) k)),
    λ x e. absurd (ground (arith, e)),
  )

  execute-IsMatched : IsMatched (execute_items_concurrently exceeds config items) (λ k. none)
  unfolding execute_items_concurrently try_start_next
  execute-IsMatched = elim (Bool-cases (length items == 0)) [
    | inl e ↦ rw e initial-IsMatched
    | inr e ↦ rw e (
        let begun =
          try_start_next {R = R} exceeds config items (initial_run exceeds config items) in
        let m =
          start_loop-IsMatched (length items - 0) (initial_run exceeds config items) (λ k. none)
            initial-IsMatched in
        elim (Bool-cases (begun.active_count == 0 && begun.completed_count == 0)) [
          | inl f ↦ rw f m
          | inr f ↦ rw f m
        ])
  ]

  pub after-IsMatched :
      (i : ℕ) (x : Settlement R) (r : Run R) (out : ℕ → Option (Settlement R))
      → is_on_the_way exceeds config items r i ≡ true
      → IsSound exceeds config items r
      → IsMatched r out
      → IsMatched (after exceeds config items i x r) (λ k. if k == i then some x else out k)
  after-IsMatched i x r out h s m k =
      let (b, e, u) = on_the_way exceeds config items r i h in
      let g : get_elem? s.filled i ≡ some b =
        at_index-slots s.filled (length items - r.current_index) i b
          (subst (λ xs. at_index xs i ≡ some b) s.array e) in
      let l = below_length s.filled i b g in
      elim (by_equal k i) [
        | inl (p, q) ↦ rw q (
          subst (λ j. at_index (write r.result_items i (some (ended i x))) j ≡ some (ended j x))
              (sym p) (at_index-write_same r.result_items i (some (ended i x)) b e),
          λ y w. omega (arith, l, p, s.extent),
        )
        | inr (n, q) ↦ rw q (
          subst (λ o. Matches o k (out k))
              (sym (at_index-write_other r.result_items i k (some (ended i x)) n)) (m k).0,
          (m k).1,
        )
      ]

  pub Reached-IsMatched :
      (r : Run R) (c : Reached exceeds config items r) → IsMatched r (outcome_of c)
  Reached-IsMatched r begins = execute-IsMatched
  Reached-IsMatched _ (settles {r = r} i x c h) =
      subst (λ q. IsMatched q (λ k. if k == i then some x else outcome_of c k))
        (sym (settle-after exceeds config items i x r))
        (conclude-IsMatched (after exceeds config items i x r)
          (λ k. if k == i then some x else outcome_of c k)
          (after-IsMatched i x r (outcome_of c) h (Reached-IsSound exceeds config items r c)
            (Reached-IsMatched r c)))
