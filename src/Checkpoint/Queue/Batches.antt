-- ===== src/Checkpoint/Queue/Batches.antt =====
-- checkpoint-manager.ts, `processQueue`: the batches that it takes off the queue.
use aws_durable_execution_sd.Common.{
  ℕ, ◌+◌, ◌≤◌, ◌<◌, ◌≡◌, refl, ap, subst, ◌≢◌, ◌⊎◌, inl, inr, Bool, true, false, ◌&&◌, ◌||◌, some,
  List, [], ◌∷◌, ◌++◌, length, is_empty, ltb, leb, Bool-cases, arith,
}
use aws_durable_execution_sd.Common.{Text}
use aws_durable_execution_sd.Checkpoint.{
  QueuedCheckpoint, CheckpointManager, max_payload_size, max_items_in_batch,
}
use aws_durable_execution_sd.Checkpoint.Queue.{take_batch, process_queue, request_of, base_size}

abbrev pub total_size : List QueuedCheckpoint → ℕ
total_size [] = 0
total_size (x ∷ q) = x.size_bytes + total_size q

-- The next item does not fit behind a batch of `n` items and the given size.
abbrev pub Full : ℕ → ℕ → List QueuedCheckpoint → Type 0
Full size n [] = Unit {0}
Full size n (x ∷ q) = (max_payload_size < size + x.size_bytes) ⊎ (max_items_in_batch ≤ n)

-- A split of a queue as the loop makes it, with `n` items and `size` bytes in the batch before.
pub record IsBatch (size n : ℕ) (q batch rest : List QueuedCheckpoint) : Type 0 where
  pub split : batch ++ rest ≡ q
  pub count : n ≤ max_items_in_batch → n + length batch ≤ max_items_in_batch
  pub fits : (size + total_size batch ≤ max_payload_size) ⊎ (n + length batch ≤ 1) ⊎ (batch ≡ [])
  pub full : Full (size + total_size batch) (n + length batch) rest
  pub takes : n ≡ 0 → q ≢ [] → batch ≢ []

Full-subst :
    {size size' n n' : ℕ} (q : List QueuedCheckpoint)
    → size ≡ size'
    → n ≡ n'
    → Full size n q
    → Full size' n' q
Full-subst [] e f h = tt
Full-subst (x ∷ q) e f h = omega arith

-- The test that ends the loop.
abbrev is_full : ℕ → ℕ → QueuedCheckpoint → Bool
is_full size n x =
    (ltb max_payload_size (size + x.size_bytes) || leb max_items_in_batch n) && ltb 0 n

IsBatch-empty :
    (size n : ℕ) (x : QueuedCheckpoint) (q : List QueuedCheckpoint)
    → is_full size n x ≡ true
    → IsBatch size n (x ∷ q) [] (x ∷ q)
IsBatch-empty size n x q h = record {
  split = refl;
  count = λ le. omega arith;
  fits = inr (inr refl);
  full = ground arith;
  takes = λ zero_n. absurd (ground arith);
}

IsBatch-cons :
    {size n : ℕ} (x : QueuedCheckpoint) {q batch rest : List QueuedCheckpoint}
    → is_full size n x ≡ false
    → IsBatch (size + x.size_bytes) (n + 1) q batch rest
    → IsBatch size n (x ∷ q) (x ∷ batch) rest
IsBatch-cons x {rest} h b = record {
  split = ap (◌∷◌ x) b.split;
  count = λ le. ground (arith, b.count);
  fits = ground (arith, b.fits);
  full = Full-subst rest (omega arith) (omega arith) b.full;
  takes = λ zero_n some_q. λ e. cc;
}

-- The loop's split of the queue.
pub take_batch-IsBatch :
    (size n : ℕ) (q : List QueuedCheckpoint)
    → IsBatch size n q (take_batch size n q).0 (take_batch size n q).1
unfolding take_batch
take_batch-IsBatch size n [] = ground arith
take_batch-IsBatch size n (x ∷ q) = elim (Bool-cases (is_full size n x)) [
  | inl full ↦ rw full (IsBatch-empty size n x q full)
  | inr room ↦ rw room (IsBatch-cons x room (take_batch-IsBatch (size + x.size_bytes) (n + 1) q))
]

-- What a round of `process_queue` sends, with `batch` for its batch.
pub record SendsBatch (hash : Text → Text) (m : CheckpointManager) (batch : List QueuedCheckpoint)
    : Type 0 where
  pub processing : (process_queue hash m).is_processing ≡ true
  pub held : (process_queue hash m).in_flight ≡ some batch
  pub sends : (process_queue hash m).sent ≡ m.sent ++ request_of hash m batch ∷ []
  pub batch_of_queue : IsBatch (base_size m) 0 m.queue batch (process_queue hash m).queue

-- A round that is not refused, since no request is on the way and an update or a force request waits,
-- sends the longest prefix of the queue that has at most 250 items and fits the payload limit, a
-- first item alone excepted, which is always sent; the rest of the queue keeps its order.
pub process_queue-SendsBatch :
    (hash : Text → Text) (m : CheckpointManager)
    → m.is_processing ≡ false
    → (is_empty m.queue ≡ false) ⊎ (is_empty m.force_checkpoint_promises ≡ false)
    → (batch : List QueuedCheckpoint) × SendsBatch hash m batch
unfolding process_queue
process_queue-SendsBatch hash m idle work =
    let batch = take_batch-IsBatch (base_size m) 0 m.queue in
    let rest_of_queue : (take_batch (base_size m) 0 m.queue).1 ≡ (process_queue hash m).queue =
      ground arith in
    (
      (take_batch (base_size m) 0 m.queue).0,
      record {
        processing = ground arith;
        held = ground arith;
        sends = ground arith;
        batch_of_queue =
            subst (IsBatch (base_size m) 0 m.queue (take_batch (base_size m) 0 m.queue).0)
              rest_of_queue batch;
      },
    )
