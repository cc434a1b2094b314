-- ===== src/Server/Storage/Consistent.antt =====
-- checkpoint-server/storage: what holds of the store of an execution at every time, and the changes
-- of the store that keep it.
pub mod Steps
use mathlib.Core.Bool.{decide}
use aws_durable_execution_sd.Common.{
  ℕ, ◌≡◌, refl, ◌≢◌, ◌⊎◌, inl, inr, Bool, true, false, Option, none, some, List, [], ◌∷◌, ◌++◌,
  Text, Text-discrete, present, any, contains, contains-append, ◌||◌, if◌then◌else◌, sym, subst, ap,
  ◌∙◌, arith,
}
use aws_durable_execution_sd.Common.Map
use aws_durable_execution_sd.Wire.{wait, Operation}
use aws_durable_execution_sd.Server.Storage.{
  Store, OperationEvents, CheckpointOperation, Outcome, returns, throws, get_operation_data,
  set_operation, put_operation_update, add_operation_update, insert, add_under,
}
use aws_durable_execution_sd.Server.Storage.Register.{scheduled_end}

-- Only a wait has a scheduled end.
abbrev pub OnlyWaitEnds : Operation → Type 0
OnlyWaitEnds op = (scheduled_end op ≡ none) ⊎ (op.type ≡ some wait)

-- Each operation is held under its own id, and each changed id is that of a held operation.
pub record IsConsistent (s : Store) : Type 0 where
  pub entries :
      (id : Text) (d : OperationEvents)
      → get_operation_data s id ≡ some d
      → (present d.operation.id ≡ some id) × OnlyWaitEnds d.operation
  pub changed :
      (id : Text) → contains s.dirty_operation_ids id ≡ true → get_operation_data s id ≢ none

pub same-IsConsistent :
    (s s' : Store)
    → s'.operation_data_map ≡ s.operation_data_map
    → s'.dirty_operation_ids ≡ s.dirty_operation_ids
    → IsConsistent s
    → IsConsistent s'
same-IsConsistent s s' e f h = record {
  entries = λ id d g. h.entries id d (ap (λ m. Map.get Text-discrete m id) (sym e) ∙ g);
  changed = λ id c n.
      h.changed id (ap (λ ids. contains ids id) (sym f) ∙ c)
        (ap (λ m. Map.get Text-discrete m id) (sym e) ∙ n);
}

pub drained-IsConsistent :
    (s s' : Store)
    → s'.operation_data_map ≡ s.operation_data_map
    → s'.dirty_operation_ids ≡ []
    → IsConsistent s
    → IsConsistent s'
drained-IsConsistent s s' e f h = record {
  entries = λ id d g. h.entries id d (ap (λ m. Map.get Text-discrete m id) (sym e) ∙ g);
  changed = λ id c n. ground (arith, ap (λ ids. contains ids id) f);
}

pub empty-IsConsistent :
    (s : Store) → s.operation_data_map ≡ [] → s.dirty_operation_ids ≡ [] → IsConsistent s
unfolding Map.get
empty-IsConsistent s e f = record {
  entries = λ id d g. absurd (ground (arith, ap (λ m. Map.get Text-discrete m id) e));
  changed = λ id c n. ground (arith, ap (λ ids. contains ids id) f);
}

contains-insert_cases :
    (xs : List Text) (t j : Text)
    → contains (insert xs t) j ≡ true
    → (t ≡ j) ⊎ (contains xs j ≡ true)
unfolding insert decide
contains-insert_cases xs t j h = go (contains xs t) h
  where
    go :
        (b : Bool)
        → contains (if b then xs else xs ++ t ∷ []) j ≡ true
        → (t ≡ j) ⊎ (contains xs j ≡ true)
    go true k = inr k
    go false k = one (Text-discrete t j) (sym (contains-append xs (t ∷ []) j) ∙ k)
      where
        one :
            (d : Dec (t ≡ j))
            → (contains xs j || (decide d || false)) ≡ true
            → (t ≡ j) ⊎ (contains xs j ≡ true)
        one (yes e) q = inl e
        one (no n) q = inr (ground arith)

module _ (id : Text) (d : OperationEvents) (s s' : Store) where
  -- A write of one operation, under its own id.
  pub set-IsConsistent :
      s'.operation_data_map ≡ Map.set Text-discrete s.operation_data_map id d
      → s'.dirty_operation_ids ≡ s.dirty_operation_ids
        ⊎ (s'.dirty_operation_ids ≡ insert s.dirty_operation_ids id)
      → present d.operation.id ≡ some id
      → OnlyWaitEnds d.operation
      → IsConsistent s
      → IsConsistent s'
  set-IsConsistent e f p w h = record {
    entries = λ j d' g.
        elim (Map.get-set_cases Text-discrete s.operation_data_map id d j d'
          (ap (λ m. Map.get Text-discrete m j) (sym e) ∙ g)) [
            | inl (i, k) ↦
                subst (λ x. (present x.operation.id ≡ some j) × OnlyWaitEnds x.operation) k
                  (p ∙ ap some i, w)
            | inr k ↦ h.entries j d' k
          ];
    changed = λ j c n.
        Map.get-set_held Text-discrete s.operation_data_map id d j (held j f c)
          (ap (λ m. Map.get Text-discrete m j) (sym e) ∙ n);
  }
    where
      held :
          (j : Text)
          → (s'.dirty_operation_ids ≡ s.dirty_operation_ids)
            ⊎ (s'.dirty_operation_ids ≡ insert s.dirty_operation_ids id)
          → contains s'.dirty_operation_ids j ≡ true
          → (id ≡ j) ⊎ (get_operation_data s j ≢ none)
      held j (inl k) c = inr (h.changed j (ap (λ ids. contains ids j) (sym k) ∙ c))
      held j (inr k) c =
          elim (contains-insert_cases s.dirty_operation_ids id j
            (ap (λ ids. contains ids j) (sym k) ∙ c)) [
              | inl i ↦ inl i
              | inr k' ↦ inr (h.changed j k')
            ]

pub add_operation_update-IsConsistent :
    (c : CheckpointOperation) (s : Store)
    → OnlyWaitEnds c.operation
    → IsConsistent s
    → IsConsistent (add_operation_update c s).1
unfolding add_operation_update
add_operation_update-IsConsistent c s w h = go (present c.operation.id) refl
  where
    go : (o : Option Text) → present c.operation.id ≡ o → IsConsistent (add_under o c s).1
    go none e = h
    go (some id) e =
        set-IsConsistent id (record { operation = c.operation; events = c.events }) s _ refl
          (inr refl) e w h
