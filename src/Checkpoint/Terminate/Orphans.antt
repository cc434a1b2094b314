-- ===== src/Checkpoint/Terminate/Orphans.antt =====
-- checkpoint-manager.ts, rule 5 of `shouldTerminate`: the operations that it forgets, and those that
-- are left.
use mathlib.Core.Logic.{if_pos, if_neg}
use aws_durable_execution_sd.Common.{
  ◌≡◌, refl, sym, subst, ◌⊎◌, inl, inr, true, false, List, [], ◌∷◌, Text, Text-discrete, All,
  All-imp, Bool-cases, arith,
}
use aws_durable_execution_sd.Common.Map
use aws_durable_execution_sd.Checkpoint.{OperationInfo, CheckpointManager}
use aws_durable_execution_sd.Checkpoint.Terminate.{forget, forget_orphans, is_orphan, infos}

abbrev pub Entries : Type 0
Entries = List (Text × OperationInfo)

-- An operation is filed under its own step id.
abbrev pub IsKeyed : Entries → Type 0
IsKeyed = All λ e. e.0 ≡ e.1.step_id

abbrev pub Has : OperationInfo → Entries → Type 0
Has op [] = ⊥
Has op (e ∷ es) = (op ≡ e.1) ⊎ Has op es

Has-delete :
    (op : OperationInfo) (es : Entries) (k : Text)
    → Has op (Map.delete Text-discrete es k)
    → Has op es
unfolding Map.delete
Has-delete op [] k h = h
Has-delete op ((j, w) ∷ es) k h = elim (Text-discrete j k) [
  | yes p ↦ inr (Has-delete op es k (rw (if_pos _ p) at h))
  | no p ↦
      elim (let g : Has op ((j, w) ∷ Map.delete Text-discrete es k) = rw (if_neg _ p) at h in g) [
        | inl here ↦ inl here
        | inr later ↦ inr (Has-delete op es k later)
      ]
]

pub All-delete :
    (P : Text × OperationInfo → Type 0) (es : Entries) (k : Text)
    → All (λ e. (e.0 ≡ k) ⊎ P e) es
    → All P (Map.delete Text-discrete es k)
unfolding Map.delete
All-delete P [] k h = tt
All-delete P ((j, w) ∷ es) k h = elim (Text-discrete j k) [
  | yes p ↦ rw (if_pos _ p) (All-delete P es k h.1)
  | no p ↦
      rw (if_neg _ p)
        (elim h.0 [ inl same ↦ absurd (p same) | inr holds ↦ (holds, All-delete P es k h.1) ])
]

pub Has-All :
    (P : OperationInfo → Type 0) (op : OperationInfo) (es : Entries)
    → All (λ e. P e.1) es
    → Has op es
    → P op
Has-All P op [] h i = absurd i
Has-All P op (e ∷ es) h (inl here) = rw here h.0
Has-All P op (e ∷ es) h (inr later) = Has-All P op es h.1 later

abbrev pub Among : OperationInfo → List OperationInfo → Type 0
Among op [] = ⊥
Among op (o ∷ os) = (op ≡ o) ⊎ Among op os

module _ (hash : Text → Text) where
  -- An entry that is filed right, and that is no orphan or is yet to be looked at.
  abbrev pub Covered : CheckpointManager → List OperationInfo → Text × OperationInfo → Type 0
  Covered m ops e = (e.0 ≡ e.1.step_id) × ((is_orphan hash m e.1 ≡ false) ⊎ Among e.1 ops)

  forgotten_or_left :
      (m : CheckpointManager) (op : OperationInfo) (ops : List OperationInfo)
      (e : Text × OperationInfo)
      → Covered m (op ∷ ops) e
      → (e.0 ≡ op.step_id) ⊎ Covered m ops e
  forgotten_or_left m op ops e (key, inl fine) = inr (key, inl fine)
  forgotten_or_left m op ops e (key, inr (inl same)) = inl (rw (← same) key)
  forgotten_or_left m op ops e (key, inr (inr later)) = inr (key, inr later)

  left_when_kept :
      (m : CheckpointManager) (op : OperationInfo) (ops : List OperationInfo)
      → is_orphan hash m op ≡ false
      → (e : Text × OperationInfo) → Covered m (op ∷ ops) e
      → Covered m ops e
  left_when_kept m op ops fine e (key, inl g) = (key, inl g)
  left_when_kept m op ops fine e (key, inr (inl same)) = (key, inl (rw same fine))
  left_when_kept m op ops fine e (key, inr (inr later)) = (key, inr later)

  pub orphan_step :
      (op : OperationInfo) (ops : List OperationInfo) (m : CheckpointManager)
      → is_orphan hash m op ≡ true
      → forget_orphans hash (op ∷ ops) m ≡ forget_orphans hash ops (forget hash op.step_id m)
  unfolding forget_orphans
  orphan_step op ops m orphan = rw orphan

  pub kept_step :
      (op : OperationInfo) (ops : List OperationInfo) (m : CheckpointManager)
      → is_orphan hash m op ≡ false
      → forget_orphans hash (op ∷ ops) m ≡ forget_orphans hash ops m
  unfolding forget_orphans
  kept_step op ops m fine = rw fine

  abbrev pub NoOrphan : CheckpointManager → CheckpointManager → Type 0
  NoOrphan m n = All (λ e. is_orphan hash m e.1 ≡ false) n.operations

  pub no_orphans_left :
      (ops : List OperationInfo) (m : CheckpointManager)
      → All (Covered m ops) m.operations
      → NoOrphan m (forget_orphans hash ops m)
  unfolding forget
  no_orphans_left [] m h =
      unfold forget_orphans in
      All-imp (Covered m []) (λ e. is_orphan hash m e.1 ≡ false) (λ e c. ground arith) m.operations
        h
  no_orphans_left (op ∷ ops) m h = elim (Bool-cases (is_orphan hash m op)) [
    | inl orphan ↦ subst (NoOrphan m) (sym (orphan_step op ops m orphan)) (
        no_orphans_left ops (forget hash op.step_id m) (
          All-delete (Covered m ops) m.operations op.step_id (
            All-imp (Covered m (op ∷ ops)) (λ e. (e.0 ≡ op.step_id) ⊎ Covered m ops e)
              (forgotten_or_left m op ops) m.operations h)))
    | inr fine ↦ subst (NoOrphan m) (sym (kept_step op ops m fine)) (
        no_orphans_left ops m (
          All-imp (Covered m (op ∷ ops)) (Covered m ops) (left_when_kept m op ops fine) m.operations
            h))
  ]

  pub forget_orphans-Has :
      (op : OperationInfo) (ops : List OperationInfo) (m : CheckpointManager)
      → Has op (forget_orphans hash ops m).operations
      → Has op m.operations
  unfolding forget
  forget_orphans-Has op [] m h = unfold forget_orphans in h
  forget_orphans-Has op (o ∷ ops) m h = elim (Bool-cases (is_orphan hash m o)) [
    | inl orphan ↦ Has-delete op m.operations o.step_id (
        forget_orphans-Has op ops (forget hash o.step_id m)
          (subst (λ n. Has op n.operations) (orphan_step o ops m orphan) h))
    | inr fine ↦
        forget_orphans-Has op ops m (subst (λ n. Has op n.operations) (kept_step o ops m fine) h)
  ]

  pub infos-Covered :
      (m : CheckpointManager)
      → IsKeyed m.operations
      → All (Covered m (infos m.operations)) m.operations
  infos-Covered m k = grow m.operations k
    where
      among :
          (e : Text × OperationInfo) (f : Text × OperationInfo) (es : Entries)
          → Covered m (infos es) e
          → Covered m (infos (f ∷ es)) e
      among e f es (key, inl fine) = (key, inl fine)
      among e f es (key, inr a) = (key, inr (inr a))

      grow : (es : Entries) → IsKeyed es → All (Covered m (infos es)) es
      grow [] h = tt
      grow (e ∷ es) h = (
        (h.0, inr (inl refl)),
        All-imp (Covered m (infos es)) (Covered m (infos (e ∷ es))) (λ f. among f e es) es
            (grow es h.1),
      )
