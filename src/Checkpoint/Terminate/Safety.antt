-- ===== src/Checkpoint/Terminate/Safety.antt =====
-- checkpoint-manager.ts, `shouldTerminate` and the cooldown: when an invocation may be ended.
use aws_durable_execution_sd.Common.{
  ◌≡◌, refl, ◌≢◌, inl, inr, true, false, some, [], ◌∷◌, Text, All, any, Option-cases, Bool-cases,
  arith,
}
use aws_durable_execution_sd.Termination.{TerminationReason}
use aws_durable_execution_sd.Checkpoint.Ids.{has_finished_ancestor}
use aws_durable_execution_sd.Checkpoint.{OperationInfo, CheckpointManager, executing}
use aws_durable_execution_sd.Checkpoint.Terminate.{
  is_executing, is_waiting, forget_orphans, is_orphan, should_terminate, on_cooldown,
  abort_termination, infos,
}
use aws_durable_execution_sd.Checkpoint.Terminate.Frame.{should_terminate-manager}
use aws_durable_execution_sd.Checkpoint.Terminate.Orphans.{
  Entries, IsKeyed, Has, Has-All, infos-Covered, forget_orphans-Has, no_orphans_left,
}

module _ (hash : Text → Text) where
  some_waiting :
      (es : Entries)
      → any (λ op. is_waiting op.state) (infos es) ≡ true
      → (op : OperationInfo) × Has op es × (is_waiting op.state ≡ true)
  some_waiting [] h = absurd (ground arith)
  some_waiting (e ∷ es) h = elim (Bool-cases (is_waiting e.1.state)) [
    | inl w ↦ (e.1, inl refl, w)
    | inr v ↦ let (op, i, w) = some_waiting es (ground arith) in (op, inr i, w)
  ]

  none_executing :
      (es : Entries)
      → any (λ op. is_executing op.state) (infos es) ≡ false
      → All (λ e. e.1.state ≢ executing) es
  none_executing [] h = tt
  none_executing (e ∷ es) h = (λ x. absurd (ground arith), none_executing es (ground arith))

  -- Nothing runs or is on the way, and an operation waits that has no finished ancestor.
  pub record MayEnd (m : CheckpointManager) : Type 0 where
    pub no_queue : m.queue ≡ []
    pub no_request : m.is_processing ≡ false
    pub no_force : m.force_checkpoint_promises ≡ []
    pub no_code : All (λ e. e.1.state ≢ executing) m.operations
    pub awaited : OperationInfo
    pub tracked : Has awaited m.operations
    pub waits : is_waiting awaited.state ≡ true
    pub wanted : has_finished_ancestor m.finished_ancestors awaited.metadata.step_id ≡ false

  should_terminate-MayEnd :
      (m : CheckpointManager) (r : TerminationReason)
      → IsKeyed m.operations
      → (should_terminate hash m).0 ≡ some r
      → MayEnd m
  unfolding should_terminate
  should_terminate-MayEnd m r k h =
      let n = forget_orphans hash (infos m.operations) m in
      let (op, i, w) = some_waiting n.operations (ground arith) in
      let fine =
        Has-All (λ o. is_orphan hash m o ≡ false) op n.operations
          (no_orphans_left hash (infos m.operations) m (infos-Covered hash m k)) i in
      record {
        no_queue = ground arith;
        no_request = ground arith;
        no_force = ground arith;
        no_code = none_executing m.operations (ground arith);
        awaited = op;
        tracked = forget_orphans-Has hash op (infos m.operations) m i;
        waits = w;
        wanted = ground arith;
      }

  -- The cooldown's callback ends the invocation only while no update is queued, no request or force
  -- request is on the way, no operation runs user code, and some operation waits that has no finished
  -- ancestor. The operations are filed under their own ids.
  pub on_cooldown-MayEnd :
      (reason : TerminationReason) (m : CheckpointManager)
      → IsKeyed m.operations
      → m.termination_manager.is_terminated ≡ false
      → (on_cooldown hash reason m).termination_manager.is_terminated ≡ true
      → MayEnd m
  unfolding on_cooldown abort_termination
  on_cooldown-MayEnd reason m k before after = elim (Option-cases (should_terminate hash m).0) [
    | inl stays ↦ absurd (ground (arith, should_terminate-manager hash m))
    | inr (r, e) ↦ should_terminate-MayEnd m r k e
  ]
