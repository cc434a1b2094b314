-- ===== src/Checkpoint/Invariant/Keyed.antt =====
-- checkpoint-manager.ts: the `operations` map holds every record under its own step id.
use mathlib.Core.Logic.{if_pos, if_neg}
use aws_durable_execution_sd.Common.{
  ◌≡◌, ◌⊎◌, refl, sym, ◌∙◌, ap, subst, inl, inr, Option, none, some, List, [], ◌∷◌, map, Text,
  Text-discrete, All-imp, Bool-cases, if-either, arith,
}
use aws_durable_execution_sd.Common.Map
use aws_durable_execution_sd.Termination.{TerminationReason}
use aws_durable_execution_sd.Checkpoint.{OperationInfo, CheckpointManager}
use aws_durable_execution_sd.Checkpoint.Terminate.{
  cleanup_operation, should_terminate, check_and_terminate, on_cooldown, forget, forget_orphans,
  quiet, is_orphan, infos,
}
use aws_durable_execution_sd.Checkpoint.Terminate.Orphans.{
  Entries, IsKeyed, All-delete, orphan_step, kept_step,
}
use aws_durable_execution_sd.Checkpoint.Timers.{find_info, put_info}

pub set-IsKeyed :
    (es : Entries) (k : Text) (op : OperationInfo)
    → IsKeyed es
    → k ≡ op.step_id
    → IsKeyed (Map.set Text-discrete es k op)
unfolding Map.set
set-IsKeyed [] k op h e = (e, tt)
set-IsKeyed ((j, w) ∷ es) k op h e = elim (Text-discrete j k) [
  | yes p ↦ rw (if_pos _ p) (p ∙ e, h.1)
  | no p ↦ rw (if_neg _ p) (h.0, set-IsKeyed es k op h.1 e)
]

get-IsKeyed :
    (es : Entries) (k : Text) (op : OperationInfo)
    → IsKeyed es
    → Map.get Text-discrete es k ≡ some op
    → k ≡ op.step_id
unfolding Map.get
get-IsKeyed [] k op h e = absurd (ground (arith, e))
get-IsKeyed ((j, w) ∷ es) k op h e = elim (Text-discrete j k) [
  | yes p ↦ sym p ∙ h.0 ∙ ap (λ o. o.step_id) (same_info (rw (if_pos _ p) at e))
  | no p ↦ get-IsKeyed es k op h.1 (rw (if_neg _ p) at e)
]
  where
    same_info : {a b : OperationInfo} → some a ≡ some b → a ≡ b
    same_info e = ground (arith, e)

-- Writing back a record that was found, with its step id.
pub put-IsKeyed :
    (m : CheckpointManager) (k : Text) (op new : OperationInfo)
    → IsKeyed m.operations
    → find_info m k ≡ some op
    → new.step_id ≡ op.step_id
    → IsKeyed (put_info k new m).operations
put-IsKeyed m k op new h f e =
    set-IsKeyed m.operations k new h (get-IsKeyed m.operations k op h f ∙ sym e)

pub quiet-IsKeyed : (es : Entries) → IsKeyed es → IsKeyed (map (λ e. (e.0, quiet e.1)) es)
quiet-IsKeyed [] h = tt
quiet-IsKeyed (e ∷ es) h = (h.0, quiet-IsKeyed es h.1)

pub cleanup_operation-IsKeyed :
    (k : Text) (m : CheckpointManager)
    → IsKeyed m.operations
    → IsKeyed (cleanup_operation k m).operations
unfolding cleanup_operation
cleanup_operation-IsKeyed k m h = go (Map.get Text-discrete m.operations k) refl
  where
    go :
        (o : Option OperationInfo)
        → Map.get Text-discrete m.operations k ≡ o
        → IsKeyed
            (elim o as (λ x. CheckpointManager) [
              | none ↦ m
              | some op ↦ record m { operations = Map.set Text-discrete m.operations k (quiet op) }
            ]).operations
    go none e = h
    go (some op) e = put-IsKeyed m k op (quiet op) h e refl

module _ (hash : Text → Text) where
  forget_orphans-IsKeyed :
      (ops : List OperationInfo) (m : CheckpointManager)
      → IsKeyed m.operations
      → IsKeyed (forget_orphans hash ops m).operations
  unfolding forget_orphans forget
  forget_orphans-IsKeyed [] m h = h
  forget_orphans-IsKeyed (op ∷ ops) m h = elim (Bool-cases (is_orphan hash m op)) [
    | inl orphan ↦
        subst (λ n. IsKeyed n.operations) (sym (orphan_step hash op ops m orphan))
          (forget_orphans-IsKeyed ops (forget hash op.step_id m) (
            All-delete (λ e. e.0 ≡ e.1.step_id) m.operations op.step_id
              (All-imp (λ e. e.0 ≡ e.1.step_id) _ (λ e k. inr k) m.operations h)))
    | inr other ↦
        subst (λ n. IsKeyed n.operations) (sym (kept_step hash op ops m other))
          (forget_orphans-IsKeyed ops m h)
  ]

  should_terminate-IsKeyed :
      (m : CheckpointManager)
      → IsKeyed m.operations
      → IsKeyed (should_terminate hash m).1.operations
  unfolding should_terminate
  should_terminate-IsKeyed m h =
      if-either (λ (p : Option TerminationReason × CheckpointManager). IsKeyed p.1.operations) _ _ _
        h (forget_orphans-IsKeyed (infos m.operations) m h)

  check_and_terminate-operations :
      (m : CheckpointManager)
      → (check_and_terminate hash m).operations ≡ (should_terminate hash m).1.operations
  unfolding check_and_terminate
  check_and_terminate-operations m = ground arith

  pub check_and_terminate-IsKeyed :
      (m : CheckpointManager)
      → IsKeyed m.operations
      → IsKeyed (check_and_terminate hash m).operations
  check_and_terminate-IsKeyed m h =
      subst IsKeyed (sym (check_and_terminate-operations m)) (should_terminate-IsKeyed m h)

  on_cooldown-operations :
      (reason : TerminationReason) (m : CheckpointManager)
      → ((on_cooldown hash reason m).operations ≡ (should_terminate hash m).1.operations)
        ⊎ ((on_cooldown hash reason m).operations
            ≡ map (λ e. (e.0, quiet e.1)) (should_terminate hash m).1.operations)
  unfolding on_cooldown
  on_cooldown-operations reason m = ground arith

  pub on_cooldown-IsKeyed :
      (reason : TerminationReason) (m : CheckpointManager)
      → IsKeyed m.operations
      → IsKeyed (on_cooldown hash reason m).operations
  on_cooldown-IsKeyed reason m h = elim (on_cooldown-operations reason m) [
    | inl e ↦ subst IsKeyed (sym e) (should_terminate-IsKeyed m h)
    | inr e ↦
        subst IsKeyed (sym e)
          (quiet-IsKeyed (should_terminate hash m).1.operations (should_terminate-IsKeyed m h))
  ]
