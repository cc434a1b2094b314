-- ===== src/StepIds/Tests.antt =====
-- Examples of hashed ids.
use aws_durable_execution_sd.Common.{◌≡◌, List, [], ◌∷◌, map, Text, codes}
use aws_durable_execution_sd.StepIds.{hash_ids}
use aws_durable_execution_sd.StepIds.Memo.{IsMemo, hash_ids-IsMemo}

abbrev digest : Text → Text
digest id = b'#' ∷ id

abbrev ids : List Text
ids = codes "1" ∷ codes "2" ∷ codes "1" ∷ []

hash_ids-IsMemo_example :
    ((hash_ids digest ids []).0 ≡ map digest ids) × IsMemo digest (hash_ids digest ids []).1
hash_ids-IsMemo_example = hash_ids-IsMemo digest ids
