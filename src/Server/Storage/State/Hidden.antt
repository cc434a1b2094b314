-- ===== src/Server/Storage/State/Hidden.antt =====
-- checkpoint-server/storage/checkpoint-manager.ts: which operations `getState` leaves out, without
-- the set that its loop carries.
use mathlib.Core.Bool.{decide}
use aws_durable_execution_sd.Common.{
  ◌≡◌, refl, ◌≢◌, ◌↔◌, inl, inr, Bool, true, false, Option, none, some, List, [], ◌∷◌, Text,
  Text-discrete, present, contains, arith, subst, Bool-cases,
}
use aws_durable_execution_sd.Common.Map
use aws_durable_execution_sd.Wire.{Operation}
use aws_durable_execution_sd.Server.Storage.{Store, OperationEvents}
use aws_durable_execution_sd.Server.Storage.State.{
  replays_children, is_finished_context, parent_hides, is_excluded, state_loop, get_state,
}

abbrev pub Entries : Type 0
Entries = List (Text × OperationEvents)

-- The parent is a finished context that does not replay its children, or is hidden itself.
pub data Hidden (ops : Entries) : Operation → Type 0 where
  not_replayed :
      (op : Operation) (p : Text) (d : OperationEvents)
      → present op.parent_id ≡ some p
      → Map.get Text-discrete ops p ≡ some d
      → is_finished_context d.operation ≡ true
      → replays_children d.operation.context_details ≡ false
      → Hidden ops op
  inherited :
      (op : Operation) (p : Text) (d : OperationEvents)
      → present op.parent_id ≡ some p
      → Map.get Text-discrete ops p ≡ some d
      → is_finished_context d.operation ≡ true
      → Hidden ops d.operation
      → Hidden ops op

-- The operations of the entries that are not hidden, in the order of the entries.
pub data Shows (ops : Entries) : Entries → List Operation → Type 0 where
  end : Shows ops [] []
  leaves :
      (id : Text) (d : OperationEvents) (rest : Entries) (shown : List Operation)
      → Hidden ops d.operation
      → Shows ops rest shown
      → Shows ops ((id, d) ∷ rest) shown
  gives :
      (id : Text) (d : OperationEvents) (rest : Entries) (shown : List Operation)
      → ¬ Hidden ops d.operation
      → Shows ops rest shown
      → Shows ops ((id, d) ∷ rest) (d.operation ∷ shown)

-- Each entry is the only one with its id, and a parent that the map holds stands before its children.
abbrev pub ParentsFirst : Entries → List Text → Entries → Type 0
ParentsFirst ops done [] = Unit {0}
ParentsFirst ops done ((id, d) ∷ rest) =
    ((p : Text)
      → present d.operation.parent_id ≡ some p
      → Map.get Text-discrete ops p ≢ none
      → contains done p ≡ true)
    × (Map.get Text-discrete ops id ≡ some d)
    × (contains done id ≡ false)
    × ParentsFirst ops (id ∷ done) rest

-- The excluded ids are those of the entries done whose operations are hidden.
record IsExact (ops : Entries) (done excluded : List Text) : Type 0 where
  exact :
      (id : Text) (d : OperationEvents)
      → contains done id ≡ true
      → Map.get Text-discrete ops id ≡ some d
      → (contains excluded id ≡ true) ↔ Hidden ops d.operation
  within : (id : Text) → contains excluded id ≡ true → contains done id ≡ true

module _ (ops : Entries) (done excluded : List Text) (x : IsExact ops done excluded) where
  is_excluded_iff :
      (op : Operation)
      → ((p : Text)
          → present op.parent_id ≡ some p
          → Map.get Text-discrete ops p ≢ none
          → contains done p ≡ true)
      → (is_excluded ops excluded op ≡ true) ↔ Hidden ops op
  is_excluded_iff op first = (sound (present op.parent_id) refl, complete)
    where
      hides :
          (p : Text) (o : Option OperationEvents)
          → present op.parent_id ≡ some p
          → Map.get Text-discrete ops p ≡ o
          → parent_hides o excluded p ≡ true
          → Hidden ops op
      hides p (some d) e g h = elim (Bool-cases (replays_children d.operation.context_details)) [
        | inl t ↦
            inherited op p d e g (ground arith)
              ((x.exact p d (first p e (λ n. ground arith)) g).0 (ground arith))
        | inr t ↦ not_replayed op p d e g (ground arith) t
      ]
      hides p none e g h = absurd (ground arith)

      sound :
          (o : Option Text)
          → present op.parent_id ≡ o
          → is_excluded ops excluded op ≡ true
          → Hidden ops op
      sound none e h = absurd (ground arith)
      sound (some p) e h = hides p (Map.get Text-discrete ops p) e refl (ground arith)

      complete : Hidden ops op → is_excluded ops excluded op ≡ true
      complete (not_replayed _ p d e g f r) = ground arith
      complete (inherited _ p d e g f hd) =
          ground (arith, (x.exact p d (first p e (λ n. ground arith)) g).1 hd)

  module _ (id : Text) (d : OperationEvents) (held : Map.get Text-discrete ops id ≡ some d)
      (fresh : contains done id ≡ false) where
    excluded-IsExact : Hidden ops d.operation → IsExact ops (id ∷ done) (id ∷ excluded)
    unfolding decide
    excluded-IsExact h = record {
      exact = λ j d' c g. elim (Text-discrete id j) [
        | yes e ↦ (λ _. subst (Hidden ops) (ground arith) h, λ _. ground arith)
        | no n ↦ (
          λ k. (x.exact j d' (ground arith) g).0 (ground arith),
          λ k. ground (arith, (x.exact j d' (ground arith) g).1 k),
        )
      ];
      within = λ j c. ground (arith, x.within j);
    }

    kept-IsExact : ¬ Hidden ops d.operation → IsExact ops (id ∷ done) excluded
    unfolding decide
    kept-IsExact h = record {
      exact = λ j d' c g. elim (Text-discrete id j) [
        | yes e ↦ (
          λ k. absurd (ground (arith, x.within j k)),
          λ k. absurd (h (subst (Hidden ops) (ground arith) k)),
        )
        | no n ↦ x.exact j d' (ground arith) g
      ];
      within = λ j c. ground (arith, x.within j c);
    }

-- The rest of the loop, once the test on the first entry is known.
abbrev state_step : Entries → Text → OperationEvents → Entries → List Text → Bool → List Operation
state_step ops id d rest excluded true = state_loop ops rest (id ∷ excluded)
state_step ops id d rest excluded false = d.operation ∷ state_loop ops rest excluded

state_loop-Shows :
    (ops rest : Entries) (done excluded : List Text)
    → IsExact ops done excluded
    → ParentsFirst ops done rest
    → Shows ops rest (state_loop ops rest excluded)
unfolding state_loop
state_loop-Shows ops [] done excluded x h = end
state_loop-Shows ops ((id, d) ∷ rest) done excluded x (first, held, fresh, later) =
    let iff = is_excluded_iff ops done excluded x d.operation first in
    go (is_excluded ops excluded d.operation) iff
      (λ y. state_loop-Shows ops rest (id ∷ done) (id ∷ excluded) y later)
      (λ y. state_loop-Shows ops rest (id ∷ done) excluded y later)
  where
    go :
        (b : Bool)
        → (b ≡ true) ↔ Hidden ops d.operation
        → (IsExact ops (id ∷ done) (id ∷ excluded)
            → Shows ops rest (state_loop ops rest (id ∷ excluded)))
        → (IsExact ops (id ∷ done) excluded → Shows ops rest (state_loop ops rest excluded))
        → Shows ops ((id, d) ∷ rest) (state_step ops id d rest excluded b)
    go true iff hides shows =
        let hidden = iff.0 refl in
        leaves id d rest _ hidden
          (hides (excluded-IsExact ops done excluded x id d held fresh hidden))
    go false iff hides shows =
        let shown : ¬ Hidden ops d.operation = λ k. ground (arith, iff.1 k) in
        gives id d rest _ shown (shows (kept-IsExact ops done excluded x id d held fresh shown))

-- When each operation has one entry and every parent stands before its children, an invocation is
-- given, in order, exactly the operations of which no parent is a finished context that does not
-- replay its children, or a finished context that is left out itself.
pub get_state-Shows :
    (s : Store)
    → ParentsFirst s.operation_data_map [] s.operation_data_map
    → Shows s.operation_data_map s.operation_data_map (get_state s)
unfolding get_state
get_state-Shows s h =
    state_loop-Shows s.operation_data_map s.operation_data_map [] []
      (record { exact = λ id d c g. absurd (ground arith); within = λ id c. c }) h
