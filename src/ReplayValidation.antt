-- ===== src/ReplayValidation.antt =====
-- packages/aws-durable-execution-sdk-js/src/utils/replay-validation/replay-validation.ts and
-- utils/termination-helper/termination-helper.ts: the check of an operation against what is recorded
-- under its id. An error is its message; the check returns whether or not it has terminated.
mod Tests
use aws_durable_execution_sd.Common.{
  Bool, true, false, not, ◌≡◌, refl, ◌≢◌, ◌⊎◌, inl, inr, Option, none, some, ◌++◌, Text,
  Text-discrete, codes, get_or, arith, if◌then◌else◌, sym, ap, ◌∙◌,
}
use aws_durable_execution_sd.Wire.{
  OperationType, callback, chained_invoke, context, execution, step, wait, OperationType-discrete,
  Operation,
}
use aws_durable_execution_sd.Termination.{
  TerminationManager, TerminationOptions, non_determinism, terminate,
}

pub record CurrentOperation : Type 0 where
  pub type : OperationType
  pub name : Option Text
  pub sub_type : Text

-- The values of the enum.
abbrev type_text : OperationType → Text
type_text execution = codes "EXECUTION"
type_text context = codes "CONTEXT"
type_text step = codes "STEP"
type_text wait = codes "WAIT"
type_text callback = codes "CALLBACK"
type_text chained_invoke = codes "CHAINED_INVOKE"

abbrev or_undefined : Option Text → Text
or_undefined o = get_or o (codes "undefined")

-- The message of `NonDeterministicExecutionError`, with the prefix of `UnrecoverableExecutionError`.
abbrev mismatch : Text → Text → Text → Text → Text
mismatch step_id kind expected got =
    codes "[Unrecoverable Execution] Non-deterministic execution detected: Operation "
    ++ kind
    ++ codes " mismatch for step \""
    ++ step_id
    ++ codes "\". Expected "
    ++ kind
    ++ codes " \""
    ++ expected
    ++ codes "\", but got \""
    ++ got
    ++ codes "\". This indicates non-deterministic control flow in your workflow code."

abbrev pub unrecoverable_options : Text → Text → TerminationOptions Text
unrecoverable_options step_id error = record {
  reason = some non_determinism;
  message = some (codes "Unrecoverable error in step " ++ step_id ++ codes ": " ++ error);
  error = some error;
}

unfoldable pub terminate_for_unrecoverable_error :
    Text → Text → TerminationManager Text → TerminationManager Text
unfolding terminate
terminate_for_unrecoverable_error step_id error t =
    (terminate t (unrecoverable_options step_id error)).0

abbrev pub type_mismatch : Text → CurrentOperation → OperationType → Text
type_mismatch step_id c recorded =
    mismatch step_id (codes "type") (type_text recorded) (type_text c.type)

abbrev pub name_mismatch : Text → CurrentOperation → Operation → Text
name_mismatch step_id c op =
    mismatch step_id (codes "name") (or_undefined op.name) (or_undefined c.name)

abbrev pub sub_type_mismatch : Text → CurrentOperation → Operation → Text
sub_type_mismatch step_id c op =
    mismatch step_id (codes "subtype") (or_undefined op.sub_type) c.sub_type

unfoldable pub OptionText-discrete : Discrete (Option Text)
OptionText-discrete none none = yes refl
OptionText-discrete none (some b) = no (λ q. absurd (ground arith))
OptionText-discrete (some a) none = no (λ q. absurd (ground arith))
OptionText-discrete (some a) (some b) = elim (Text-discrete a b) [
  | yes p ↦ yes (ap some p)
  | no n ↦ no (λ q. n (ap (λ o. get_or o a) q))
]

-- `if (a !== b) terminateForUnrecoverableError(...)`
abbrev pub checked :
    {P : Type 0} → Dec P → Text → Text → TerminationManager Text → TerminationManager Text
checked d step_id error t = elim d [
  | yes _ ↦ t
  | no _ ↦ terminate_for_unrecoverable_error step_id error t
]

unfoldable pub check_typed :
    Text
    → CurrentOperation
    → Operation
    → Option OperationType
    → TerminationManager Text
    → TerminationManager Text
unfolding terminate_for_unrecoverable_error
check_typed step_id c op none t = t
check_typed step_id c op (some recorded) t =
    checked (OptionText-discrete op.sub_type (some c.sub_type)) step_id
      (sub_type_mismatch step_id c op)
      (checked (OptionText-discrete op.name c.name) step_id (name_mismatch step_id c op) (
        checked (OperationType-discrete recorded c.type) step_id (type_mismatch step_id c recorded)
          t))

unfoldable pub validate_replay_consistency :
    Text → CurrentOperation → Option Operation → TerminationManager Text → TerminationManager Text
unfolding check_typed
validate_replay_consistency step_id c none t = t
validate_replay_consistency step_id c (some op) t = check_typed step_id c op op.type t

-- What is recorded agrees with the operation, or says nothing of it.
pub data IsConsistent (c : CurrentOperation) : Option Operation → Type 0 where
  nothing_recorded : IsConsistent c none
  nothing_typed : (op : Operation) → op.type ≡ none → IsConsistent c (some op)
  agrees :
      (op : Operation)
      → op.type ≡ some c.type
      → op.name ≡ c.name
      → op.sub_type ≡ some c.sub_type
      → IsConsistent c (some op)

-- The first of the three properties that differs, with its message.
pub data IsFirstMismatch (step_id : Text) (c : CurrentOperation)
    : Option Operation → Text → Type 0 where
  in_type :
      (op : Operation) (recorded : OperationType)
      → op.type ≡ some recorded
      → recorded ≢ c.type
      → IsFirstMismatch step_id c (some op) (type_mismatch step_id c recorded)
  in_name :
      (op : Operation)
      → op.type ≡ some c.type
      → op.name ≢ c.name
      → IsFirstMismatch step_id c (some op) (name_mismatch step_id c op)
  in_sub_type :
      (op : Operation)
      → op.type ≡ some c.type
      → op.name ≡ c.name
      → op.sub_type ≢ some c.sub_type
      → IsFirstMismatch step_id c (some op) (sub_type_mismatch step_id c op)

is_terminated-terminate :
    (step_id error : Text) (t : TerminationManager Text)
    → (terminate_for_unrecoverable_error step_id error t).is_terminated ≡ true
unfolding terminate_for_unrecoverable_error
is_terminated-terminate step_id error t = by_flag t.is_terminated refl
  where
    by_flag :
        (b : Bool)
        → t.is_terminated ≡ b
        → (terminate_for_unrecoverable_error step_id error t).is_terminated ≡ true
    by_flag true h = ground (arith, h)
    by_flag false h = ground (arith, h)

checked-terminated :
    {P : Type 0} (d : Dec P) (step_id error : Text) (t : TerminationManager Text)
    → t.is_terminated ≡ true
    → checked d step_id error t ≡ t
unfolding terminate_for_unrecoverable_error
checked-terminated (yes p) step_id error t h = refl
checked-terminated (no n) step_id error t h = ground (arith, h)

module _ (step_id : Text) (c : CurrentOperation) where
  abbrev pub Judged : Option Operation → TerminationManager Text → TerminationManager Text → Type 0
  Judged o t t' =
      (IsConsistent c o × (t' ≡ t))
      ⊎ ((error : Text) × IsFirstMismatch step_id c o error
          × (t' ≡ (terminate t (unrecoverable_options step_id error)).0))

  judged :
      (op : Operation) (recorded : OperationType) (t : TerminationManager Text)
      → op.type ≡ some recorded
      → (dt : Dec (recorded ≡ c.type)) (dn : Dec (op.name ≡ c.name))
        (ds : Dec (op.sub_type ≡ some c.sub_type))
      → Judged (some op) t (
          checked ds step_id (sub_type_mismatch step_id c op) (
            checked dn step_id
              (name_mismatch step_id c op)
              (checked dt step_id (type_mismatch step_id c recorded) t)))
  unfolding terminate_for_unrecoverable_error
  judged op recorded t e (yes p) (yes q) (yes r) = inl (agrees op (e ∙ ap some p) q r, refl)
  judged op recorded t e (yes p) (yes q) (no n) =
      inr (sub_type_mismatch step_id c op, in_sub_type op (e ∙ ap some p) q n, refl)
  judged op recorded t e (yes p) (no n) ds = inr (
    name_mismatch step_id c op,
    in_name op (e ∙ ap some p) n,
    checked-terminated ds step_id (sub_type_mismatch step_id c op) _
        (is_terminated-terminate step_id (name_mismatch step_id c op) t),
  )
  judged op recorded t e (no n) dn ds =
      let h = is_terminated-terminate step_id (type_mismatch step_id c recorded) t in
      let k = checked-terminated dn step_id (name_mismatch step_id c op) _ h in
      inr (
        type_mismatch step_id c recorded,
        in_type op recorded e n,
        ap (checked ds step_id (sub_type_mismatch step_id c op)) k
            ∙ checked-terminated ds step_id (sub_type_mismatch step_id c op) _ h,
      )

  check_typed-Judged :
      (op : Operation) (r : Option OperationType) (t : TerminationManager Text)
      → op.type ≡ r
      → Judged (some op) t (check_typed step_id c op r t)
  unfolding check_typed
  check_typed-Judged op none t e = inl (nothing_typed op e, refl)
  check_typed-Judged op (some recorded) t e =
      judged op recorded t e (OperationType-discrete recorded c.type)
        (OptionText-discrete op.name c.name) (OptionText-discrete op.sub_type (some c.sub_type))

  -- The check of a replay leaves the termination manager as it is when what is recorded agrees in
  -- type, name and subtype or has no type, and otherwise terminates for the first of the three that
  -- differs, with its message.
  pub validate_replay_consistency-Judged :
      (o : Option Operation) (t : TerminationManager Text)
      → Judged o t (validate_replay_consistency step_id c o t)
  unfolding validate_replay_consistency
  validate_replay_consistency-Judged none t = inl (nothing_recorded, refl)
  validate_replay_consistency-Judged (some op) t = check_typed-Judged op op.type t refl
