-- ===== src/Server/Storage/Session/Kept.antt =====
-- checkpoint-server/storage/checkpoint-manager.ts: invocations and answers keep the store consistent, and
-- an answer to a consistent store does not throw.
use aws_durable_execution_sd.Common.{
  ℕ, ◌≡◌, refl, ◌≢◌, inl, inr, true, Option, none, some, List, [], ◌∷◌, Text, Text-discrete,
  present, map, contains, ◌||◌, All, length, ap, arith, Option-cases,
}
use mathlib.Core.Bool.{decide}
use aws_durable_execution_sd.Common.Map
use aws_durable_execution_sd.Wire.{Operation}
use aws_durable_execution_sd.Server.Storage.Events.{process_update}
use aws_durable_execution_sd.Server.Storage.{Store, returns, get_operation_data, new_array}
use aws_durable_execution_sd.Server.Storage.Session.{
  initialize, get_dirty_operations, drain_dirty, look_up_all, complete_invocation, complete_started,
  get_pending_checkpoint_updates, operation_of,
}
use aws_durable_execution_sd.Server.Storage.Consistent.{
  IsConsistent, same-IsConsistent, drained-IsConsistent, set-IsConsistent,
}

pub initialize-IsConsistent :
    (now : ℕ) (id : Text) (payload : Option Text) (s : Store)
    → present (some id) ≡ some id
    → IsConsistent s
    → IsConsistent (initialize now id payload s).1
unfolding initialize new_array process_update
initialize-IsConsistent now id payload s p h =
    set-IsConsistent id (record { operation = _; events = length s.event_arrays }) s _ refl
      (inl refl) p (inl refl) h

pub complete_invocation-IsConsistent :
    (id : Text) (s : Store) → IsConsistent s → IsConsistent (complete_invocation id s).1
unfolding complete_invocation
complete_invocation-IsConsistent id s h = go (Map.get Text-discrete s.invocations_map id)
  where
    go : (o : Option ℕ) → IsConsistent (complete_started id o s).1
    go none = h
    go (some since) = same-IsConsistent s _ refl refl h

pub get_pending_checkpoint_updates-IsConsistent :
    (s : Store) → IsConsistent s → IsConsistent (get_pending_checkpoint_updates s).1
unfolding get_pending_checkpoint_updates
get_pending_checkpoint_updates-IsConsistent s h =
    same-IsConsistent s _ (ground arith) (ground arith) h

-- All ids of the list are those of held operations.
abbrev AllHeld : Store → List Text → Type 0
AllHeld s ids = All (λ id. get_operation_data s id ≢ none) ids

look_up_all_held :
    (s : Store) (ids : List Text) → AllHeld s ids → look_up_all s.operation_data_map ids ≢ none
unfolding look_up_all
look_up_all_held s [] h = ground arith
look_up_all_held s (id ∷ ids) (h, hs) = ground (arith, look_up_all_held s ids hs)

AllHeld-changed :
    (s : Store) (ids : List Text)
    → ((id : Text) → contains ids id ≡ true → get_operation_data s id ≢ none)
    → AllHeld s ids
unfolding decide
AllHeld-changed s [] h = tt
AllHeld-changed s (id ∷ ids) h = (
  h id (first (Text-discrete id id)),
  AllHeld-changed s ids (λ j c. h j (later (Text-discrete id j) c)),
)
  where
    first : (d : Dec (id ≡ id)) → (decide d || contains ids id) ≡ true
    first (yes e) = refl
    first (no n) = absurd (n refl)

    later :
        {j : Text} (d : Dec (id ≡ j)) → contains ids j ≡ true → (decide d || contains ids j) ≡ true
    later (yes e) c = refl
    later (no n) c = c

pub get_dirty_operations-IsConsistent :
    (s : Store) → IsConsistent s → IsConsistent (get_dirty_operations s).1
unfolding get_dirty_operations
get_dirty_operations-IsConsistent s h = go (look_up_all s.operation_data_map s.dirty_operation_ids)
  where
    go : (o : Option (List Operation)) → IsConsistent (drain_dirty o s).1
    go none = h
    go (some ops) = drained-IsConsistent s _ refl refl h

look_up_all_lem :
    (s : Store) (ids : List Text) (ops : List Operation)
    → look_up_all s.operation_data_map ids ≡ some ops
    → map (λ id. operation_of (get_operation_data s id)) ids ≡ map some ops
unfolding look_up_all
look_up_all_lem s [] ops h = ground arith
look_up_all_lem s (id ∷ ids) [] h = ground arith
look_up_all_lem s (id ∷ ids) (op ∷ ops) h = ground (arith, look_up_all_lem s ids ops)

-- The answer has the operation of each changed id, in order, and no id stays marked.
pub get_dirty_operations_returns :
    (s : Store)
    → IsConsistent s
    → (ops : List Operation) × (get_dirty_operations s
        ≡ (returns ops, record s { dirty_operation_ids = [] }))
      × (map (λ id. operation_of (get_operation_data s id)) s.dirty_operation_ids ≡ map some ops)
unfolding get_dirty_operations
get_dirty_operations_returns s h =
    elim (Option-cases (look_up_all s.operation_data_map s.dirty_operation_ids)) [
      | inl n ↦ absurd (
          look_up_all_held s s.dirty_operation_ids
            (AllHeld-changed s s.dirty_operation_ids h.changed) n)
      | inr (ops, e) ↦
          (ops, ap (λ o. drain_dirty o s) e, look_up_all_lem s s.dirty_operation_ids ops e)
    ]
