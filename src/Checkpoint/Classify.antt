-- ===== src/Checkpoint/Classify.antt =====
-- checkpoint-manager.ts, `classifyCheckpointError`, and errors/non-retryable-errors.ts: whether a
-- failed checkpoint request ends the invocation or the whole execution.
use aws_durable_execution_sd.Common.{
  ℕ, ◌≤◌, ◌<◌, ◌≡◌, ◌≢◌, ◌↔◌, ◌⊎◌, inl, inr, Bool, true, false, not, ◌&&◌, Option-cases, Bool-cases,
  Option, none, some, List, [], ◌∷◌, ◌++◌, Text, Text-discrete, codes, contains, present, is_prefix,
  if◌then◌else◌, leb, ltb, ◌==◌, decide, arith,
}
use aws_durable_execution_sd.Checkpoint.{CheckpointError, invocation_error, execution_error}

pub data Scope : Type 0 where
  invocation_scope execution_scope : Scope

-- A thrown value, as the method reads it: `scope` is present if `isDurableExecutionClientError`
-- holds of it, and `original_message` is the message of the `Error` that it is or is wrapped in.
pub record Thrown : Type 0 where
  pub scope : Option Scope
  pub status_code : Option ℕ
  pub name : Option Text
  pub message : Option Text
  pub original_message : Text

abbrev pub non_retryable_customer_errors : List Text
non_retryable_customer_errors =
    codes "KMSAccessDeniedException"
    ∷ codes "KMSDisabledException"
    ∷ codes "KMSInvalidStateException"
    ∷ codes "KMSNotFoundException"
    ∷ []

unfoldable pub is_non_retryable_customer_error : Thrown → Bool
is_non_retryable_customer_error e = elim (present e.name) [
  | none ↦ false
  | some n ↦ contains non_retryable_customer_errors n
]

abbrev pub error_message : Thrown → Text
error_message e = elim (present e.message) [ none ↦ e.original_message | some m ↦ m ]

abbrev pub checkpoint_failed_text : Text → Text
checkpoint_failed_text m = codes "Checkpoint failed: " ++ m

abbrev pub is_client_error : Option ℕ → Bool
is_client_error none = false
is_client_error (some c) = leb 400 c && ltb c 500

abbrev pub is_throttled : Option ℕ → Bool
is_throttled none = false
is_throttled (some c) = c == 429

abbrev pub is_invalid_parameter : Option Text → Bool
is_invalid_parameter none = false
is_invalid_parameter (some n) = decide (Text-discrete n (codes "InvalidParameterValueException"))

unfoldable pub is_invalid_token : Thrown → Bool
is_invalid_token e =
    is_client_error e.status_code
    && is_invalid_parameter e.name
    && is_prefix (codes "Invalid Checkpoint Token") (error_message e)

classify_by_shape : Thrown → CheckpointError
classify_by_shape e =
    let text = checkpoint_failed_text (error_message e) in
    if is_invalid_token e
    then invocation_error text
    else if is_client_error e.status_code && not (is_throttled e.status_code)
    then execution_error text
    else if is_non_retryable_customer_error e
    then execution_error text
    else invocation_error text

unfoldable pub classify_checkpoint_error : Thrown → CheckpointError
unfolding classify_by_shape
classify_checkpoint_error e = elim e.scope [
  | some s ↦ elim s [
    | execution_scope ↦ execution_error (checkpoint_failed_text e.original_message)
    | invocation_scope ↦ invocation_error (checkpoint_failed_text e.original_message)
  ]
  | none ↦ classify_by_shape e
]

-- The message that `UnrecoverableExecutionError` and `UnrecoverableInvocationError` make.
abbrev pub message_of : CheckpointError → Text
message_of (invocation_error m) = codes "[Unrecoverable Invocation] " ++ m
message_of (execution_error m) = codes "[Unrecoverable Execution] " ++ m

abbrev pub FailsExecution : CheckpointError → Type 0
FailsExecution (execution_error _) = Unit {0}
FailsExecution (invocation_error _) = ⊥

-- A failure that no retry can mend, by the shape of the error.
abbrev pub IsPermanent : Thrown → Type 0
IsPermanent e =
    ((c : ℕ) × (e.status_code ≡ some c)
      × (400 ≤ c)
      × (c < 500)
      × (c ≢ 429)
      × (is_invalid_token e ≡ false))
    ⊎ ((is_non_retryable_customer_error e ≡ true) × (is_invalid_token e ≡ false))

shape_iff : (e : Thrown) → FailsExecution (classify_by_shape e) ↔ IsPermanent e
unfolding classify_by_shape
shape_iff e = elim (Option-cases e.status_code) [
  | inl absent ↦ ground arith
  | inr (c, code) ↦ (
    λ h. elim (Bool-cases (leb 400 c && ltb c 500 && not (c == 429))) [
      | inl client ↦ inl (c, code, ground arith, ground arith, ground arith, ground arith)
      | inr other ↦ inr (ground arith, ground arith)
    ],
    λ h. elim h [
      | inl (d, code', lo, hi, ne, valid) ↦ ground arith
      | inr (kms, valid) ↦ ground arith
    ],
  )
]

-- A checkpoint failure fails the execution exactly if the transport states the scope EXECUTION, or
-- states none and the error is permanent: a 4xx status other than 429 or one of the KMS errors, and
-- not an invalid checkpoint token.
pub classify_checkpoint_error_iff :
    (e : Thrown)
    → FailsExecution (classify_checkpoint_error e)
      ↔ ((e.scope ≡ some execution_scope) ⊎ ((e.scope ≡ none) × IsPermanent e))
unfolding classify_checkpoint_error
classify_checkpoint_error_iff e = elim (Option-cases e.scope) [
  | inl unstated ↦ ground (arith, shape_iff e)
  | inr (s, stated) ↦ ground arith
]
