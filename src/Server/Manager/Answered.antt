-- ===== src/Server/Manager/Answered.antt =====
-- checkpoint-server/handlers/checkpoint-handlers.ts: validation, registration and answer of a
-- checkpoint request together.
use aws_durable_execution_sd.Common.{
  ℕ, ◌≡◌, refl, ◌≢◌, ◌⊎◌, true, Option, none, some, List, [], ◌∷◌, Text, arith,
}
use aws_durable_execution_sd.Common.Map
use aws_durable_execution_sd.Wire.{Operation, OperationUpdate}
use aws_durable_execution_sd.Server.Validate.{Rejection, Result, ok, reject}
use aws_durable_execution_sd.Server.Validate.Batch.{validate_checkpoint_updates}
use aws_durable_execution_sd.Server.Storage.{
  Store, OperationEvents, get_operation_data, invalid_checkpoint_token,
}
use aws_durable_execution_sd.Server.Storage.Register.{register_updates}
use aws_durable_execution_sd.Server.Storage.Register.Applied.{status_before, status_after}
use aws_durable_execution_sd.Server.Manager.{
  Response, responds, fails, RequestFailure, rejected, store_throws, undecodable_token,
  token_required, CheckpointAnswer, held_operations, answer_request, answer_validated,
  answer_decoded,
}

-- Some operation of the list has the given one.
abbrev pub Has : Operation → List Operation → Type 0
Has op [] = ⊥
Has op (o ∷ ops) = (o ≡ op) ⊎ Has op ops

module _ (wire_size : OperationUpdate → ℕ) (encode : Text → Text → Text → Text)
    (encode_token : Text → Text → Text → Text) (decode_token : Text → Option (Text × Text))
    (now : ℕ) (callback_token token : Text) where
  -- What the request leaves behind and answers: the operation under `id` has the status of the
  -- update's transition and is among the operations of the answer, no other operation has changed, and
  -- no operation stays marked as changed.
  abbrev pub IsAnswered :
      OperationUpdate → Text → Text × Text → Store → Response CheckpointAnswer × Store → Type 0
  IsAnswered u id ids s r =
      (d : OperationEvents) × (ops : List Operation) × (s' : Store) × (r ≡ (
        responds (record { checkpoint_token = encode_token ids.0 token ids.1; operations = ops }),
        s',
      ))
      × Has d.operation ops
      × (get_operation_data s' id ≡ some d)
      × (d.operation.status ≡ status_after u.action (status_before (get_operation_data s id)))
      × ((j : Text) → j ≢ id → get_operation_data s' j ≡ get_operation_data s j)
      × (s'.dirty_operation_ids ≡ [])

  -- Why a checkpoint request is refused.
  pub data Refused (checkpoint_token : Option Text) (us : List OperationUpdate) (s : Store)
      : Type 0 where
    without_token : checkpoint_token ≡ none → Refused checkpoint_token us s
    with_bad_token :
        (t : Text)
        → checkpoint_token ≡ some t
        → decode_token t ≡ none
        → Refused checkpoint_token us s
    invalid :
        (r : Rejection)
        → validate_checkpoint_updates wire_size us (held_operations s) ≡ reject r
        → Refused checkpoint_token us s
    ended : s.is_execution_completed ≡ true → Refused checkpoint_token us s

  -- A checkpoint request without a token that can be read, with updates that the validators reject, or
  -- to an execution that has ended fails, and leaves the store as it was.
  pub answer_request-refuses :
      (checkpoint_token : Option Text) (us : List OperationUpdate) (s : Store)
      → Refused checkpoint_token us s
      → (f : RequestFailure) × (answer_request wire_size encode encode_token decode_token now
            callback_token token checkpoint_token us s
          ≡ (fails f, s))
  unfolding answer_request register_updates
  answer_request-refuses o us s w = by_token o refl
    where
      answer : Response CheckpointAnswer × Store → Type 0
      answer r = (f : RequestFailure) × (r ≡ (fails f, s))

      by_validation :
          (ids : Text × Text) (v : Result (Unit {0}))
          → validate_checkpoint_updates wire_size us (held_operations s) ≡ v
          → (t : Text) → decode_token t ≡ some ids
          → o ≡ some t
          → answer (
              answer_validated wire_size encode encode_token decode_token now callback_token token
                ids us v s)
      by_validation ids (reject r) e t d p = (rejected r, refl)
      by_validation ids (ok _) e t d p = elim w [
        | without_token q ↦ absurd (ground arith)
        | with_bad_token t' q b ↦ absurd (ground arith)
        | invalid r q ↦ absurd (ground arith)
        | ended q ↦ (store_throws invalid_checkpoint_token, simp q)
      ]

      by_ids :
          (t : Text) (d : Option (Text × Text))
          → decode_token t ≡ d
          → o ≡ some t
          → answer (
              answer_decoded wire_size encode encode_token decode_token now callback_token token d
                us s)
      by_ids t none e p = (undecodable_token, refl)
      by_ids t (some ids) e p =
          by_validation ids (validate_checkpoint_updates wire_size us (held_operations s)) refl t e
            p

      by_token :
          (p : Option Text)
          → o ≡ p
          → answer (
              answer_request wire_size encode encode_token decode_token now callback_token token p
                us s)
      by_token none e = (token_required, refl)
      by_token (some t) e = by_ids t (decode_token t) refl e
