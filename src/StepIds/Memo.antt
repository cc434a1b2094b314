-- ===== src/StepIds/Memo.antt =====
-- step-id-utils.ts: the memo never changes what is computed, and it is bounded.
use aws_durable_execution_sd.Common.{
  suc, Bool, true, false, ◌≤◌, ◌≡◌, refl, inl, inr, Option, none, some, List, [], ◌∷◌, map, Text,
  Text-discrete, length, leb, if◌then◌else◌, arith, sym, ap, ◌∙◌,
}
use aws_durable_execution_sd.Common.Map
use aws_durable_execution_sd.StepIds.{Cache, max_hash_cache_size, hash_found, hash_id, hash_ids}

length-set : (m : Cache) (k v : Text) → length (Map.set Text-discrete m k v) ≤ suc (length m)
unfolding Map.set
length-set [] k v = omega arith
length-set ((j, w) ∷ m) k v = ground (arith, length-set m k v)

module _ (digest : Text → Text) where
  -- Each entry of the cache is a digest, and there are not too many.
  pub record IsMemo (cache : Cache) : Type 0 where
    pub digests :
        (input hash : Text) → Map.get Text-discrete cache input ≡ some hash → hash ≡ digest input
    pub bounded : length cache ≤ max_hash_cache_size

  empty-IsMemo : IsMemo []
  unfolding Map.get
  empty-IsMemo = record { digests = λ input hash h. absurd (ground arith); bounded = omega arith }

  set-IsMemo :
      (cache : Cache) (input : Text)
      → IsMemo cache
      → suc (length cache) ≤ max_hash_cache_size
      → IsMemo (Map.set Text-discrete cache input (digest input))
  set-IsMemo cache input h l = record {
    digests = λ j hash g.
        elim (Map.get-set_cases Text-discrete cache input (digest input) j hash g) [
          | inl (e, f) ↦ sym f ∙ ap digest e
          | inr k ↦ h.digests j hash k
        ];
    bounded = omega (arith, length-set cache input (digest input));
  }

  -- One call gives the digest and leaves a memo.
  hash_id-IsMemo :
      (input : Text) (cache : Cache)
      → IsMemo cache
      → ((hash_id digest input cache).0 ≡ digest input) × IsMemo (hash_id digest input cache).1
  unfolding hash_id
  hash_id-IsMemo input cache h = go (Map.get Text-discrete cache input) refl
    where
      room :
          (b : Bool)
          → leb max_hash_cache_size (length cache) ≡ b
          → IsMemo (Map.set Text-discrete (if b then [] else cache) input (digest input))
      room true e = set-IsMemo [] input empty-IsMemo (omega arith)
      room false e = set-IsMemo cache input h (ground arith)

      go :
          (o : Option Text)
          → Map.get Text-discrete cache input ≡ o
          → ((hash_found digest input o cache).0 ≡ digest input)
            × IsMemo (hash_found digest input o cache).1
      go (some hash) e = (h.digests input hash e, h)
      go none e = (refl, room (leb max_hash_cache_size (length cache)) refl)

  hash_ids_from :
      (inputs : List Text) (cache : Cache)
      → IsMemo cache
      → ((hash_ids digest inputs cache).0 ≡ map digest inputs)
        × IsMemo (hash_ids digest inputs cache).1
  unfolding hash_ids
  hash_ids_from [] cache h = (refl, h)
  hash_ids_from (input ∷ inputs) cache h =
      let (e, k) = hash_id-IsMemo input cache h in
      let (f, l) = hash_ids_from inputs (hash_id digest input cache).1 k in (simp (e, f), l)

  -- Through any calls of a process, each call gives the digest of its id, as without the memo, and
  -- the memo holds digests only, at most 10000 of them.
  pub hash_ids-IsMemo :
      (inputs : List Text)
      → ((hash_ids digest inputs []).0 ≡ map digest inputs) × IsMemo (hash_ids digest inputs []).1
  hash_ids-IsMemo inputs = hash_ids_from inputs [] empty-IsMemo
