-- ===== src/Server/Storage/Register/Applied.antt =====
-- checkpoint-server/storage/checkpoint-manager.ts: what an update that the validators accept does to
-- the store.
use mathlib.Core.Bool.{decide}
use aws_durable_execution_sd.Common.{
  ℕ, ◌+◌, length, ◌≡◌, refl, ◌≢◌, inl, inr, Bool, true, false, Option, none, some, List, [], ◌∷◌,
  ◌++◌, Text, Text-discrete, present, contains, contains-append, if◌then◌else◌, ◌||◌, sym, subst,
  arith, Option-cases, ◌∙◌, ap,
}
use aws_durable_execution_sd.Common.Map
use aws_durable_execution_sd.Wire.{
  execution, OperationAction, cancel, fail, retry, succeed, OperationStatus, failed, pending,
  started, succeeded, Operation, OperationUpdate, has_type,
}
use aws_durable_execution_sd.Server.Validate.Transitions.{
  Transition, create, stop, open_context, close_context, fail_context, end_execution,
  fail_execution, start_step, close_step, fail_step, retry_step, a_callback, an_invoke, a_wait,
}
use aws_durable_execution_sd.Server.Storage.Events.{Event, process_update}
use aws_durable_execution_sd.Server.Storage.{
  Store, OperationEvents, Outcome, returns, get_operation_data, put_operation_update,
  add_operation_update, insert, events_of,
}
use aws_durable_execution_sd.Server.Storage.Register.{
  register_existing, register_by_end, complete_operation, completed_operation, publish,
  scheduled_end,
}

-- The status that the store gives to an operation of the given status: a START leaves it, so a READY
-- step stays READY.
abbrev pub status_after : Option OperationAction → Option OperationStatus → Option OperationStatus
status_after (some succeed) s = some succeeded
status_after (some fail) s = some failed
status_after (some retry) s = some pending
status_after _ s = s

abbrev pub status_before : Option OperationEvents → Option OperationStatus
status_before none = some started
status_before (some d) = d.operation.status

abbrev pub current : Option OperationEvents → Option Operation
current none = none
current (some d) = some d.operation

pub has_event :
    (now n : ℕ) (t : Option ℕ) (u : OperationUpdate) (prev : Option Operation) (o : Operation)
    → Transition u prev
    → u.action ≢ some cancel
    → o.type ≡ u.type
    → process_update now t u o n ≢ none
unfolding process_update
has_event now n t u prev o (create k a_callback p q r) c h = ground arith
has_event now n t u prev o (create k an_invoke p q r) c h = ground arith
has_event now n t u prev o (create k a_wait p q r) c h = ground arith
has_event now n t u prev o (stop k w b p q r v) c h = ground arith
has_event now n t u prev o (open_context p q r) c h = ground arith
has_event now n t u prev o (close_context p q r v) c h = ground arith
has_event now n t u prev o (fail_context p q r v) c h = ground arith
has_event now n t u prev o (end_execution p q r) c h = ground arith
has_event now n t u prev o (fail_execution p q r) c h = ground arith
has_event now n t u prev o (start_step p q r) c h = ground arith
has_event now n t u prev o (close_step p q r v) c h = ground arith
has_event now n t u prev o (fail_step p q r v) c h = ground arith
has_event now n t u prev o (retry_step p q r v w) c h = ground arith

pub publish_returns :
    (u : OperationUpdate) (d : OperationEvents) (id : Text) (s : Store)
    → present d.operation.id ≡ some id
    → publish u (returns d, s) ≡ (
      returns d,
      put_operation_update id
          (record { operation = d.operation; events = d.events; update = some u })
          s,
    )
unfolding publish add_operation_update
publish_returns u d id s h = rw h refl

completed_operation_lem :
    (now : ℕ) (u : OperationUpdate) (prev : Option Operation) (o : Operation)
    → Transition u prev
    → u.action ≢ some cancel
    → o.type ≡ u.type
    → let o' = completed_operation now u o in
      (o'.status ≡ status_after u.action o.status)
      × (o'.id ≡ o.id)
      × (o'.type ≡ o.type)
      × (o'.parent_id ≡ o.parent_id)
      × (o'.wait_details ≡ o.wait_details)
unfolding completed_operation
completed_operation_lem now u prev o (create k a_callback p q r) c h = ground arith
completed_operation_lem now u prev o (create k an_invoke p q r) c h = ground arith
completed_operation_lem now u prev o (create k a_wait p q r) c h = ground arith
completed_operation_lem now u prev o (stop k w b p q r v) c h = ground arith
completed_operation_lem now u prev o (open_context p q r) c h = ground arith
completed_operation_lem now u prev o (close_context p q r v) c h = ground arith
completed_operation_lem now u prev o (fail_context p q r v) c h = ground arith
completed_operation_lem now u prev o (end_execution p q r) c h = ground arith
completed_operation_lem now u prev o (fail_execution p q r) c h = ground arith
completed_operation_lem now u prev o (start_step p q r) c h = ground arith
completed_operation_lem now u prev o (close_step p q r v) c h = ground arith
completed_operation_lem now u prev o (fail_step p q r v) c h = ground arith
completed_operation_lem now u prev o (retry_step p q r v w) c h = ground arith

-- The store `s'` holds `d` under `id`, marks it for the next answer and queues it for the poll, with
-- the update; it holds the other operations of `s` unchanged.
pub record Published (u : OperationUpdate) (id : Text) (s : Store) (d : OperationEvents)
    (s' : Store) : Type 0 where
  pub held : get_operation_data s' id ≡ some d
  pub dirty : contains s'.dirty_operation_ids id ≡ true
  pub queued :
      s'.pending_updates
      ≡ s.pending_updates
        ++ record { operation = d.operation; events = d.events; update = some u } ∷ []
  pub others : (j : Text) → j ≢ id → get_operation_data s' j ≡ get_operation_data s j

decide_same : (t : Text) → decide (Text-discrete t t) ≡ true
unfolding decide
decide_same t = go (Text-discrete t t)
  where
    go : (d : Dec (t ≡ t)) → decide d ≡ true
    go (yes _) = refl
    go (no n) = absurd (n refl)

contains-insert : (xs : List Text) (t : Text) → contains (insert xs t) t ≡ true
unfolding insert
contains-insert xs t = go (contains xs t) refl
  where
    go : (b : Bool) → contains xs t ≡ b → contains (if b then xs else xs ++ t ∷ []) t ≡ true
    go true h = h
    go false h = ground (arith, contains-append xs (t ∷ []) t, decide_same t)

pub put-Published :
    (u : OperationUpdate) (id : Text) (s s1 : Store) (d : OperationEvents)
    → s1.pending_updates ≡ s.pending_updates
    → ((j : Text) → j ≢ id → get_operation_data s1 j ≡ get_operation_data s j)
    → Published u id s d (
        put_operation_update id
          (record { operation = d.operation; events = d.events; update = some u })
          s1)
put-Published u id s s1 d p others = record {
  held = ground (arith, Map.get-set Text-discrete s1.operation_data_map id d id);
  dirty = contains-insert s1.dirty_operation_ids id;
  queued = ground arith;
  others =
      λ j n. ground (arith, Map.get-set Text-discrete s1.operation_data_map id d j, others j n);
}

-- What `completeOperation` returns and leaves behind, when there is an event for the update.
abbrev completed : ℕ → OperationUpdate → OperationEvents → Store → OperationEvents
completed now u d s = record {
  operation = completed_operation now u d.operation;
  events = length s.event_arrays;
}

abbrev after_completed : OperationEvents → Event → Store → Store
after_completed d e s = record s {
  event_id = s.event_id + 1;
  event_arrays = s.event_arrays ++ (events_of s d.events ++ e ∷ []) ∷ [];
  is_execution_completed = s.is_execution_completed || has_type execution d.operation.type;
}

complete_operation_lem :
    (now : ℕ) (u : OperationUpdate) (id : Text) (s : Store) (d : OperationEvents) (e : Event)
    → present u.id ≡ some id
    → get_operation_data s id ≡ some d
    → process_update now none u d.operation s.event_id ≡ some e
    → complete_operation now u s ≡ (returns (completed now u d s), after_completed d e s)
unfolding complete_operation
complete_operation_lem now u id s d e p q r = simp (p, q, r)

-- The record that the update is applied to has its key as id, and its type.
abbrev pub Meets : OperationUpdate → Text → OperationEvents → Type 0
Meets u id d =
    (present d.operation.id ≡ some id)
    × (d.operation.type ≡ u.type)
    × (scheduled_end d.operation ≡ none)

-- The update is applied: the result is stored under `id` and published.
abbrev pub IsApplied :
    OperationUpdate
    → Text
    → Store
    → Option OperationStatus
    → Outcome OperationEvents × Store
    → Type 0
IsApplied u id s before r =
    (d : OperationEvents) × (s' : Store) × (r ≡ (returns d, s'))
    × Published u id s d s'
    × (d.operation.status ≡ status_after u.action before)

pub complete-IsApplied :
    {prev : Option Operation} (now : ℕ) (u : OperationUpdate) (id : Text) (s s1 : Store)
    (d : OperationEvents)
    → present u.id ≡ some id
    → get_operation_data s1 id ≡ some d
    → present d.operation.id ≡ some id
    → d.operation.type ≡ u.type
    → Transition u prev
    → u.action ≢ some cancel
    → s1.pending_updates ≡ s.pending_updates
    → ((j : Text) → j ≢ id → get_operation_data s1 j ≡ get_operation_data s j)
    → IsApplied u id s d.operation.status (publish u (complete_operation now u s1))
complete-IsApplied {prev = prev} now u id s s1 d p q r t tr c pend others =
    elim (Option-cases (process_update now none u d.operation s1.event_id)) [
      | inl n ↦ absurd (has_event now s1.event_id none u prev d.operation tr c t n)
      | inr (e, h) ↦
          let facts = completed_operation_lem now u prev d.operation tr c t in
          let d' = completed now u d s1 in
          let s2 = after_completed d e s1 in
          (
            d',
            put_operation_update id
                (record { operation = d'.operation; events = d'.events; update = some u }) s2,
            ap (publish u) (complete_operation_lem now u id s1 d e p q h)
                ∙ publish_returns u d' id s2 (ap present facts.1 ∙ r),
            put-Published u id s s2 d' pend others,
            facts.0,
          )
    ]

-- The record that the store holds under `id`, if any, has that id as its own, the type of the
-- update, and no scheduled end.
abbrev pub MeetsHeld : OperationUpdate → Text → Option OperationEvents → Type 0
MeetsHeld u id none = Unit {0}
MeetsHeld u id (some d) = Meets u id d

pub register_existing-IsApplied :
    (now : ℕ) (u : OperationUpdate) (id : Text) (s : Store) (d : OperationEvents)
    → present u.id ≡ some id
    → get_operation_data s id ≡ some d
    → Meets u id d
    → Transition u (some d.operation)
    → u.action ≢ some cancel
    → IsApplied u id s d.operation.status (register_existing now u d s)
unfolding register_existing
register_existing-IsApplied now u id s d p q m tr c =
    subst (λ o. IsApplied u id s d.operation.status (register_by_end now u d s o)) (sym m.2)
      (complete-IsApplied now u id s s d p q m.0 m.1 tr c refl (λ j n. refl))

-- Such an update stores what `completed_operation` makes of the operation.
pub register_existing-completed :
    (now : ℕ) (u : OperationUpdate) (id : Text) (s : Store) (d : OperationEvents)
    → present u.id ≡ some id
    → get_operation_data s id ≡ some d
    → Meets u id d
    → Transition u (some d.operation)
    → u.action ≢ some cancel
    → (e : OperationEvents) × (s' : Store) × (register_existing now u d s ≡ (returns e, s'))
      × (e.operation ≡ completed_operation now u d.operation)
unfolding register_existing
register_existing-completed now u id s d p q m tr c =
    elim (Option-cases (process_update now none u d.operation s.event_id)) [
      | inl n ↦ absurd (has_event now s.event_id none u (some d.operation) d.operation tr c m.1 n)
      | inr (e, h) ↦
          let facts = completed_operation_lem now u (some d.operation) d.operation tr c m.1 in
          let done =
            publish_returns u (completed now u d s) id (after_completed d e s)
              (ap present facts.1 ∙ m.0) in
          (
            completed now u d s,
            put_operation_update id
                (record {
                  operation = (completed now u d s).operation;
                  events = (completed now u d s).events;
                  update = some u;
                })
                (after_completed d e s),
            ap (register_by_end now u d s) m.2
                ∙ (ap (publish u) (complete_operation_lem now u id s d e p q h) ∙ done),
            refl,
          )
    ]
