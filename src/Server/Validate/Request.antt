-- ===== src/Server/Validate/Request.antt =====
-- checkpoint-server/validators/checkpoint-durable-execution-input-validator.ts: what an accepted
-- request looks like, without the two maps that the loop over it carries.
use mathlib.Core.Logic.{ite}
use aws_durable_execution_sd.Common.{
  ◌≤◌, ◌≡◌, refl, ◌≢◌, ◌↔◌, ◌⊎◌, inl, inr, true, false, Option, none, some, List, [], ◌∷◌, Text,
  Text-discrete, present, length, keep, if◌then◌else◌, Bool-cases, Option-cases, arith,
}
use aws_durable_execution_sd.Common.Map
use aws_durable_execution_sd.Wire.{
  OperationType-discrete, context, execution, step, start, OperationUpdate, Operation, has_type,
}
use aws_durable_execution_sd.Server.Validate.{ok, Operations, Updates, find_operation}
use aws_durable_execution_sd.Server.Validate.Batch.{
  is_start, last_is_execution, execution_updates, validate_conflicting_execution_update,
  is_invalid_duplicate_update, is_valid_parent_for_update, parent_is_context, check_ids,
  validate_parent_id_and_duplicate_id,
}

-- An EXECUTION update has no update behind it.
abbrev pub ExecutionLast : List OperationUpdate → Type 0
ExecutionLast [] = Unit {0}
ExecutionLast (u ∷ us) = (u.type ≡ some execution → us ≡ []) × ExecutionLast us

-- The newest of the earlier updates (newest first) that has the id, and the newest START of it.
abbrev pub latest : Text → List OperationUpdate → Option OperationUpdate
latest id [] = none
latest id (v ∷ vs) = elim (present v.id) [
  | none ↦ latest id vs
  | some j ↦ ite (Text-discrete j id) (some v) (latest id vs)
]

abbrev pub latest_start : Text → List OperationUpdate → Option OperationUpdate
latest_start id vs = latest id (keep (λ v. is_start v.action) vs)

-- A second update of one id follows the START of a STEP or a CONTEXT, and is no START itself.
abbrev pub MayFollow : Option OperationUpdate → OperationUpdate → Type 0
MayFollow none u = Unit {0}
MayFollow (some v) u =
    ((v.type ≡ some step) ⊎ (v.type ≡ some context))
    × (v.action ≡ some start)
    × (u.action ≢ some start)

-- The parent is a CONTEXT that the request starts before, or else one that exists.
abbrev pub ParentIsContext : Operations → Option OperationUpdate → Text → Type 0
ParentIsContext ops (some v) p = v.type ≡ some context
ParentIsContext ops none p =
    (o : Operation) × (find_operation ops p ≡ some o) × (o.type ≡ some context)

abbrev pub HasParent : Operations → List OperationUpdate → Option Text → Type 0
HasParent ops done none = Unit {0}
HasParent ops done (some p) = ParentIsContext ops (latest_start p done) p

-- Each update of the request, against those before it.
abbrev pub IdsValid : Operations → List OperationUpdate → List OperationUpdate → Type 0
IdsValid ops done [] = Unit {0}
IdsValid ops done (u ∷ us) =
    ((id : Text) × (present u.id ≡ some id) × MayFollow (latest id done) u)
    × HasParent ops done (present u.parent_id)
    × IdsValid ops (u ∷ done) us

module _ (ops : Operations) where
  duplicate_iff :
      (id : Text) (u : OperationUpdate) (seen : Updates) (last : Option OperationUpdate)
      → Map.get Text-discrete seen id ≡ last
      → (is_invalid_duplicate_update id u seen ≡ false) ↔ MayFollow last u
  unfolding is_invalid_duplicate_update OperationType-discrete
  duplicate_iff id u seen none e = ground arith
  duplicate_iff id u seen (some v) e = ground arith

  parent_by_iff :
      (begun : Updates) (p : Text) (v : Option OperationUpdate) (o : Option Operation)
      → Map.get Text-discrete begun p ≡ v
      → find_operation ops p ≡ o
      → (parent_is_context ops begun (some p) ≡ true) ↔ ParentIsContext ops v p
  unfolding parent_is_context OperationType-discrete
  parent_by_iff begun p (some v) o e f = ground arith
  parent_by_iff begun p none none e f =
      (λ h. absurd (ground arith), λ (r, g, t). absurd (ground arith))
  parent_by_iff begun p none (some o) e f = (λ h. (o, f, ground arith), λ (r, g, t). ground arith)

  parent_iff :
      (q : Option Text) (done : List OperationUpdate) (begun : Updates)
      → ((p : Text) → Map.get Text-discrete begun p ≡ latest_start p done)
      → (parent_is_context ops begun q ≡ true) ↔ HasParent ops done q
  unfolding parent_is_context
  parent_iff none done begun e = ground arith
  parent_iff (some p) done begun e =
      parent_by_iff begun p (latest_start p done) (find_operation ops p) (e p) refl

  -- The loop's maps hold the newest update, and the newest START, of every id.
  record Tracks (done : List OperationUpdate) (begun seen : Updates) : Type 0 where
    starts : (p : Text) → Map.get Text-discrete begun p ≡ latest_start p done
    all : (p : Text) → Map.get Text-discrete seen p ≡ latest p done

  Tracks-cons :
      (u : OperationUpdate) (id : Text) (done : List OperationUpdate) (begun seen : Updates)
      → present u.id ≡ some id
      → Tracks done begun seen
      → Tracks
          (u ∷ done)
          (if is_start u.action then Map.set Text-discrete begun id u else begun)
          (Map.set Text-discrete seen id u)
  Tracks-cons u id done begun seen e t = record {
    starts = λ p. ground (arith, t.starts p, Map.get-set Text-discrete begun id u p);
    all = λ p. ground (arith, t.all p, Map.get-set Text-discrete seen id u p);
  }

  check_ids_iff :
      (us done : List OperationUpdate) (begun seen : Updates)
      → Tracks done begun seen
      → (check_ids ops us begun seen ≡ ok tt) ↔ IdsValid ops done us
  unfolding check_ids is_valid_parent_for_update
  check_ids_iff [] done begun seen t = ground arith
  check_ids_iff (u ∷ us) done begun seen t = elim (Option-cases (present u.id)) [
    | inl absent ↦ (λ h. absurd (ground arith), λ ((id, e, _), _, _). absurd (ground arith))
    | inr (id, e) ↦
        let next =
          check_ids_iff us (u ∷ done)
            (if is_start u.action then Map.set Text-discrete begun id u else begun)
            (Map.set Text-discrete seen id u) (Tracks-cons u id done begun seen e t) in
        let fresh = duplicate_iff id u seen (latest id done) (t.all id) in
        let parent = parent_iff (present u.parent_id) done begun t.starts in
        (
          λ h. ((id, e, fresh.0 (ground arith)), parent.0 (ground arith), next.0 (ground arith)),
          λ ((j, f, m), q, r).
              let same : j ≡ id = ground arith in
              ground (arith, fresh.1 (rw same at m), parent.1 q, next.1 r),
        )
  ]

  -- The loop over the ids and the parents of a request accepts it exactly if every update has a
  -- non-empty id, follows no earlier update of that id but the START of a STEP or a CONTEXT (and is
  -- then no START), and names as its parent, if any, a CONTEXT: one started before in the request,
  -- or else one that the server holds.
  pub validate_parent_id_and_duplicate_id_iff :
      (us : List OperationUpdate)
      → (validate_parent_id_and_duplicate_id us ops ≡ ok tt) ↔ IdsValid ops [] us
  unfolding validate_parent_id_and_duplicate_id Map.get
  validate_parent_id_and_duplicate_id_iff us =
      check_ids_iff us [] [] [] (record { starts = λ p. refl; all = λ p. refl })

counted_last :
    (us : List OperationUpdate) → last_is_execution us ≡ true → 1 ≤ length (execution_updates us)
counted_last [] h = absurd (ground arith)
counted_last (u ∷ []) h = ground arith
counted_last (u ∷ v ∷ us) h = ground (arith, counted_last (v ∷ us))

-- A request passes the check on EXECUTION updates exactly if no update follows one of them, and so
-- if there is at most one, the last.
pub validate_conflicting_execution_update_iff :
    (us : List OperationUpdate)
    → (validate_conflicting_execution_update us ≡ ok tt) ↔ ExecutionLast us
unfolding validate_conflicting_execution_update OperationType-discrete
validate_conflicting_execution_update_iff [] = ground arith
validate_conflicting_execution_update_iff (u ∷ []) = ground arith
validate_conflicting_execution_update_iff (u ∷ v ∷ us) =
    let rest = validate_conflicting_execution_update_iff (v ∷ us) in
    let last = counted_last (v ∷ us) in
    elim (Bool-cases (has_type execution u.type)) [
      | inl is_execution ↦
          (λ h. absurd (ground (arith, last)), λ (only, _). absurd (ground (arith, only)))
      | inr other ↦ (
        λ h. (λ e. absurd (ground arith), rest.0 (ground arith)),
        λ (_, later). ground (arith, rest.1 later),
      )
    ]
