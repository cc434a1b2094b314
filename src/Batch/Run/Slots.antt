-- ===== src/Batch/Run/Slots.antt =====
-- concurrent-execution-handler.ts, the array `resultItems`: its first elements are set, in order, and
-- the others are not.
use aws_durable_execution_sd.Common.{
  ℕ, zero, suc, ◌+◌, ◌≡◌, refl, ap, Bool, true, false, Option, none, some, List, [], ◌∷◌, ◌++◌, map,
  length, get_elem?, arith,
}
use aws_durable_execution_sd.Batch.{BatchItem, succeeded, failed, started, JsError}
use aws_durable_execution_sd.Batch.Result.{count_statuses, is_succeeded, is_failed, is_started}
use aws_durable_execution_sd.Batch.Run.{write, new_array, dense, at_index}

abbrev pub tell : Bool → ℕ
tell true = 1
tell false = 0

module _ {A : Type 0} where
  -- `bs`, then `k` elements that are not set.
  abbrev pub slots : List A → ℕ → List (Option A)
  slots bs k = map some bs ++ new_array k

  pub write-slots_end :
      (bs : List A) (k : ℕ) (b : A)
      → write (slots bs (suc k)) (length bs) (some b) ≡ slots (bs ++ b ∷ []) k
  unfolding write new_array
  write-slots_end [] k b = refl
  write-slots_end (a ∷ bs) k b = ap (λ xs. some a ∷ xs) (write-slots_end bs k b)

  pub write-slots :
      (bs : List A) (k i : ℕ) (b c : A)
      → get_elem? bs i ≡ some b
      → write (slots bs k) i (some c) ≡ slots (write bs i c) k
  unfolding write
  write-slots [] k i b c h = absurd (ground (arith, h))
  write-slots (a ∷ bs) k zero b c h = refl
  write-slots (a ∷ bs) k (suc i) b c h = ap (λ xs. some a ∷ xs) (write-slots bs k i b c h)

  at_index-new_array :
      (k i : ℕ) (b : A) → at_index (new_array k) i ≡ some b → get_elem? {A = A} [] i ≡ some b
  unfolding new_array
  at_index-new_array zero i b h = ground (arith, h)
  at_index-new_array (suc k) zero b h = absurd (ground (arith, h))
  at_index-new_array (suc k) (suc i) b h = ground (arith, at_index-new_array k i b h)

  pub at_index-slots :
      (bs : List A) (k i : ℕ) (b : A) → at_index (slots bs k) i ≡ some b → get_elem? bs i ≡ some b
  at_index-slots [] k i b h = at_index-new_array k i b h
  at_index-slots (a ∷ bs) k zero b h = h
  at_index-slots (a ∷ bs) k (suc i) b h = at_index-slots bs k i b h

  dense-new_array : (k : ℕ) → dense {A = A} (new_array k) ≡ []
  unfolding dense new_array
  dense-new_array zero = refl
  dense-new_array (suc k) = dense-new_array k

  pub dense-slots : (bs : List A) (k : ℕ) → dense (slots bs k) ≡ bs
  unfolding dense
  dense-slots [] k = dense-new_array k
  dense-slots (b ∷ bs) k = ap (λ xs. b ∷ xs) (dense-slots bs k)

  pub length-write : (xs : List A) (i : ℕ) (x : A) → length (write xs i x) ≡ length xs
  unfolding write
  length-write [] i x = refl
  length-write (y ∷ ys) zero x = refl
  length-write (y ∷ ys) (suc i) x = ap suc (length-write ys i x)

  abbrev pub count : (A → Bool) → List A → ℕ
  count p [] = 0
  count p (x ∷ xs) = tell (p x) + count p xs

  pub count-append :
      (p : A → Bool) (xs : List A) (x : A) → count p (xs ++ x ∷ []) ≡ count p xs + tell (p x)
  count-append p [] x = omega arith
  count-append p (y ∷ ys) x = omega (arith, count-append p ys x)

  pub count-write :
      (p : A → Bool) (xs : List A) (i : ℕ) (x y : A)
      → get_elem? xs i ≡ some x
      → count p (write xs i y) + tell (p x) ≡ count p xs + tell (p y)
  unfolding write
  count-write p [] i x y h = absurd (ground (arith, h))
  count-write p (z ∷ xs) zero x y h = ground (arith, h)
  count-write p (z ∷ xs) (suc i) x y h = omega (arith, count-write p xs i x y h)

module _ {R : Type 0} where
  -- An item's fields are those of its status; one that has succeeded may have an undefined result.
  abbrev pub IsItem : BatchItem R → Type 0
  IsItem b = elim b.status [
    | succeeded ↦ (b.error ≡ none)
    | failed ↦ (b.result ≡ none) × ((e : JsError) × (b.error ≡ some e))
    | started ↦ (b.result ≡ none) × (b.error ≡ none)
  ]

  -- The items have the indices from `i` on, without a gap.
  abbrev pub AreItems : ℕ → List (BatchItem R) → Type 0
  AreItems i [] = Unit
  AreItems i (b ∷ bs) = (b.index ≡ i) × IsItem b × AreItems (suc i) bs

  pub AreItems-append :
      (i : ℕ) (bs : List (BatchItem R)) (b : BatchItem R)
      → AreItems i bs
      → b.index ≡ i + length bs
      → IsItem b
      → AreItems i (bs ++ b ∷ [])
  AreItems-append i [] b h e g = (omega arith, g, tt)
  AreItems-append i (a ∷ bs) b h e g = (h.0, h.1, AreItems-append (suc i) bs b h.2 (omega arith) g)

  pub AreItems-write :
      (k : ℕ) (bs : List (BatchItem R)) (i : ℕ) (b : BatchItem R)
      → AreItems k bs
      → b.index ≡ k + i
      → IsItem b
      → AreItems k (write bs i b)
  unfolding write
  AreItems-write k [] i b h e g = tt
  AreItems-write k (a ∷ bs) zero b h e g = (omega arith, g, h.2)
  AreItems-write k (a ∷ bs) (suc i) b h e g =
      (h.0, h.1, AreItems-write (suc k) bs i b h.2 (omega arith) g)

  -- The constructor's one pass counts each status.
  pub count_statuses_lem :
      (bs : List (BatchItem R)) (s f t : ℕ)
      → count_statuses bs s f t ≡ (
        s + count (λ b. is_succeeded b.status) bs,
        f + count (λ b. is_failed b.status) bs,
        t + count (λ b. is_started b.status) bs,
      )
  unfolding count_statuses
  count_statuses_lem [] s f t = ground arith
  count_statuses_lem (b ∷ bs) s f t = ground (
    arith,
    count_statuses_lem bs (s + 1) f t,
    count_statuses_lem bs s (f + 1) t,
    count_statuses_lem bs s f (t + 1),
  )
