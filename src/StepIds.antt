-- ===== src/StepIds.antt =====
-- packages/aws-durable-execution-sdk-js/src/utils/step-id-utils/step-id-utils.ts: the memo of hashed
-- ids, which lives as long as the process. `digest` is the first 16 digits of the MD5 sum.
mod Tests
pub mod Memo
use aws_durable_execution_sd.Common.{
  ℕ, Option, none, some, List, [], ◌∷◌, Text, Text-discrete, length, leb, if◌then◌else◌,
}
use aws_durable_execution_sd.Common.Map
use aws_durable_execution_sd.Wire.{Operation}

abbrev pub max_hash_cache_size : ℕ
max_hash_cache_size = 10000

abbrev pub Cache : Type 0
Cache = List (Text × Text)

module _ (digest : Text → Text) where
  -- The cache is emptied when it is full.
  abbrev pub make_room : Cache → Cache
  make_room cache = if leb max_hash_cache_size (length cache) then [] else cache

  hash_found : Text → Option Text → Cache → Text × Cache
  hash_found input (some hash) cache = (hash, cache)
  hash_found input none cache =
      (digest input, Map.set Text-discrete (make_room cache) input (digest input))

  unfoldable pub hash_id : Text → Cache → Text × Cache
  unfolding hash_found
  hash_id input cache = hash_found input (Map.get Text-discrete cache input) cache

  unfoldable pub get_step_data : List (Text × Operation) → Text → Cache → Option Operation × Cache
  unfolding hash_id
  get_step_data step_data step_id cache =
      let (hashed_id, cache') = hash_id step_id cache in
      (Map.get Text-discrete step_data hashed_id, cache')

  -- The calls of the process so far, in order.
  unfoldable pub hash_ids : List Text → Cache → List Text × Cache
  unfolding hash_id
  hash_ids [] cache = ([], cache)
  hash_ids (input ∷ inputs) cache =
      let (hash, cache1) = hash_id input cache in
      let (hashes, cache2) = hash_ids inputs cache1 in (hash ∷ hashes, cache2)
