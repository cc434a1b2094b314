-- ===== src/Batch/Serial/RoundTrip.antt =====
-- batch-result.ts and durable-error.ts: what of an error and of a batch survives its serialization.
use aws_durable_execution_sd.Common.{
  ℕ, zero, suc, ◌≡◌, refl, ◌≢◌, ◌⊎◌, inl, inr, Option-cases, Option, none, some, List, [], ◌∷◌,
  ◌++◌, map, Text, codes, All, Text-discrete, take, get_or, ap, ◌∙◌, sym, arith, if◌then◌else◌,
}
use mathlib.Core.Bool.{decide}
use aws_durable_execution_sd.Batch.{CompletionReason}
use aws_durable_execution_sd.Batch.Serial.{
  DurableKind, step_error, callback_error, callback_external_error, callback_timeout_error,
  callback_submitter_error, invoke_error, child_context_error, promise_combinator_error,
  wait_for_condition_error, ErrorClass, plain, durable, batch_completion, SdkError, uncaused,
  caused, error_type_of, known_kinds, find_kind, known_kind, data_of, surface_data, type_name,
  error_object, serialize_batch_error, reconstruct_batch_error, or_text, rebuilt_class,
  rebuilt_message, rebuilt_root, default_message, own_or_surfaced, LiveItem, serialize_batch,
  restore_batch_result, kept, parsed, serialize_error, restore_error, serialized_item,
  restored_item,
}

-- The type names and messages of an error and its causes.
abbrev pub chain : SdkError → List (Text × Text)
chain (uncaused c m) = (type_name c, m) ∷ []
chain (caused c m e) = (type_name c, m) ∷ chain e

-- A type has a name, and an error with the name of a known type has a message.
abbrev pub IsNamed : ErrorClass → Text → Type 0
IsNamed c m = (type_name c ≢ []) × ((known_kind (type_name c) ≡ none) ⊎ (m ≢ []))

abbrev pub AreNamed : SdkError → Type 0
AreNamed (uncaused c m) = IsNamed c m
AreNamed (caused c m e) = IsNamed c m × AreNamed e

abbrev made_up : Option DurableKind → Text × Text → List (Text × Text)
made_up none x = []
made_up (some k) x = x ∷ []

-- The cause that is made up for the last error of a chain, where that has a known type's name.
abbrev pub added : SdkError → List (Text × Text)
added (uncaused c m) = made_up (known_kind (type_name c)) (type_name c, m)
added (caused c m e) = added e

find_kind_lem :
    (t : Text) (ks : List DurableKind) (k : DurableKind)
    → find_kind t ks ≡ some k
    → error_type_of k ≡ t
unfolding decide
find_kind_lem t [] k h = absurd (ground arith)
find_kind_lem t (j ∷ ks) k h = go (Text-discrete t (error_type_of j)) h (find_kind_lem t ks k)
  where
    go :
        (d : Dec (t ≡ error_type_of j))
        → (if decide d then some j else find_kind t ks) ≡ some k
        → (find_kind t ks ≡ some k → error_type_of k ≡ t)
        → error_type_of k ≡ t
    go (yes e) q rest = ap error_type_of (sym (ap (λ o. get_or o j) q)) ∙ sym e
    go (no n) q rest = rest q

or_text_lem : (t d : Text) → t ≢ [] → or_text (some t) d ≡ t
or_text_lem [] d n = absurd (n refl)
or_text_lem (c ∷ t) d n = refl

known_kind_lem : (t : Text) (k : DurableKind) → known_kind t ≡ some k → error_type_of k ≡ t
unfolding known_kind
known_kind_lem t k h = find_kind_lem t known_kinds k h

rebuilt_lem :
    (c : ErrorClass) (m : Text) (cause : Option SdkError) (o : Option DurableKind)
    → known_kind (type_name c) ≡ o
    → IsNamed c m
    → (type_name (rebuilt_class o (error_object c m cause)) ≡ type_name c)
      × (rebuilt_message o (error_object c m cause) ≡ m)
rebuilt_lem c m cause none e (n, w) = (or_text_lem (type_name c) (codes "Error") n, refl)
rebuilt_lem c m cause (some k) e (n, w) =
    (known_kind_lem (type_name c) k e, ground (arith, or_text_lem m (default_message k)))

rebuilt_root-chain :
    (c : ErrorClass) (m : Text) (o : Option DurableKind)
    → known_kind (type_name c) ≡ o
    → IsNamed c m
    → chain (rebuilt_root o (error_object c m none)) ≡ (type_name c, m) ∷ made_up o (type_name c, m)
unfolding rebuilt_root
rebuilt_root-chain c m none e h = ap (λ t. (t, m) ∷ []) (rebuilt_lem c m none none e h).0
rebuilt_root-chain c m (some k) e h =
    let r = rebuilt_lem c m none (some k) e h in
    let s = or_text_lem (type_name c) (codes "Error") h.0 in simp (r.0, r.1, s)

-- The chain of a restored error: that of the error, and the cause that was made up at its end.
restored_chain :
    (e : SdkError)
    → AreNamed e
    → chain (reconstruct_batch_error (serialize_batch_error e)) ≡ chain e ++ added e
unfolding serialize_batch_error reconstruct_batch_error
restored_chain (uncaused c m) h = rebuilt_root-chain c m (known_kind (type_name c)) refl h
restored_chain (caused c m e) (h, hs) =
    let r = rebuilt_lem c m (some e) (known_kind (type_name c)) refl h in
    simp (r.0, r.1, restored_chain e hs)

-- The `errorData` of an error and of its causes.
abbrev pub datas : SdkError → List (Option Text)
datas (uncaused c m) = data_of c ∷ []
datas (caused c m e) = data_of c ∷ datas e

abbrev pub first_some : List (Option Text) → Option Text
first_some [] = none
first_some (none ∷ xs) = first_some xs
first_some (some x ∷ xs) = some x

take_nil : (n : ℕ) → take {A = Option Text} n [] ≡ []
take_nil zero = refl
take_nil (suc n) = refl

surface_data_lem : (n : ℕ) (e : SdkError) → surface_data n e ≡ first_some (take n (datas e))
unfolding surface_data
surface_data_lem zero e = refl
surface_data_lem (suc n) (uncaused c m) = ground (arith, ap first_some (take_nil n))
surface_data_lem (suc n) (caused c m e) = ground (arith, surface_data_lem n e)

abbrev pub class_of : SdkError → ErrorClass
class_of (uncaused c m) = c
class_of (caused c m e) = c

known_kind-error_type_of : (k : DurableKind) → known_kind (error_type_of k) ≡ some k
unfolding known_kind Text-discrete decide
known_kind-error_type_of step_error = refl
known_kind-error_type_of callback_error = refl
known_kind-error_type_of callback_external_error = refl
known_kind-error_type_of callback_timeout_error = refl
known_kind-error_type_of callback_submitter_error = refl
known_kind-error_type_of invoke_error = refl
known_kind-error_type_of child_context_error = refl
known_kind-error_type_of promise_combinator_error = refl
known_kind-error_type_of wait_for_condition_error = refl

abbrev pub IsKnownDurable : ErrorClass → Type 0
IsKnownDurable (durable k d) = Unit {0}
IsKnownDurable _ = ⊥

own_or_surfaced_lem :
    (d : Option Text) (e : SdkError)
    → own_or_surfaced d (some e) ≡ first_some (take 11 (d ∷ datas e))
own_or_surfaced_lem none e = surface_data_lem 10 e
own_or_surfaced_lem (some x) e = refl

own_lem : (d : Option Text) → own_or_surfaced d none ≡ first_some (take 11 (d ∷ []))
own_lem none = refl
own_lem (some x) = refl

restored_data :
    (e : SdkError)
    → IsKnownDurable (class_of e)
    → data_of (class_of (reconstruct_batch_error (serialize_batch_error e)))
      ≡ first_some (take 11 (datas e))
unfolding serialize_batch_error reconstruct_batch_error
restored_data (uncaused (durable k d) m) h = simp (known_kind-error_type_of k, own_lem d)
restored_data (caused (durable k d) m e) h =
    simp (known_kind-error_type_of k, own_or_surfaced_lem d e)
restored_data (uncaused (plain n) m) h = absurd h
restored_data (uncaused (batch_completion d) m) h = absurd h
restored_data (caused (plain n) m e) h = absurd h
restored_data (caused (batch_completion d) m e) h = absurd h

-- A restored error has the types and messages of the error and its causes, in order, and at the end
-- at most one cause that was made up; and one of a known type the first error data of its chain,
-- among itself and ten causes.
abbrev pub IsRestored : SdkError → SdkError → Type 0
IsRestored e e' =
    (chain e' ≡ chain e ++ added e)
    × (IsKnownDurable (class_of e) → data_of (class_of e') ≡ first_some (take 11 (datas e)))

abbrev pub ErrorRestored : Option SdkError → Option SdkError → Type 0
ErrorRestored none o = o ≡ none
ErrorRestored (some e) o = (e' : SdkError) × (o ≡ some e') × IsRestored e e'

abbrev pub ErrorNamed : Option SdkError → Type 0
ErrorNamed none = Unit {0}
ErrorNamed (some e) = AreNamed e

error_restored :
    (o : Option SdkError) → ErrorNamed o → ErrorRestored o (restore_error (serialize_error o))
error_restored none h = refl
error_restored (some e) h =
    (reconstruct_batch_error (serialize_batch_error e), refl, (restored_chain e h, restored_data e))

module _ {R J : Type 0} (to_json : R → Option J) (from_json : J → R) where
  -- What JSON leaves of a result: nothing, or a value that need not be the one before.
  abbrev pub after_json : Option R → Option R
  after_json none = none
  after_json (some r) = elim (to_json r) [ none ↦ none | some j ↦ some (from_json j) ]

  abbrev pub ItemRestored : LiveItem R → LiveItem R → Type 0
  ItemRestored b b' =
      (b'.index ≡ b.index)
      × (b'.status ≡ b.status)
      × (b'.result ≡ after_json b.result)
      × ErrorRestored b.error b'.error

  abbrev pub AllRestored : List (LiveItem R) → List (LiveItem R) → Type 0
  AllRestored [] [] = Unit {0}
  AllRestored (b ∷ bs) (b' ∷ bs') = ItemRestored b b' × AllRestored bs bs'
  AllRestored _ _ = ⊥

  result_restored :
      (o : Option R) → parsed {R = R} {J = J} from_json (kept to_json o) ≡ after_json o
  result_restored none = refl
  result_restored (some r) = elim (Option-cases (to_json r)) [
    | inl e ↦ ground (arith, e)
    | inr (j, e) ↦ ground (arith, e)
  ]

  all_restored :
      (bs : List (LiveItem R))
      → All (λ b. ErrorNamed b.error) bs
      → AllRestored bs (map (restored_item from_json) (map (serialized_item to_json) bs))
  all_restored [] h = tt
  all_restored (b ∷ bs) (h, hs) =
      ((refl, refl, result_restored b.result, error_restored b.error h), all_restored bs hs)

  -- A batch that is serialized and restored has its completion reason, and its items in order with
  -- their indices and statuses. Its results are what JSON leaves of them, which may be another value
  -- or nothing. The error of an item comes back with the types and messages
  -- of its whole chain of causes, followed by at most one cause that was made up, and, if it is of a
  -- known durable type, with the first error data among itself and ten causes. Each error of a chain
  -- has a type name, and a message if that is the name of a known type.
  pub restore_batch_result-serialize_batch :
      (bs : List (LiveItem R)) (reason : CompletionReason)
      → All (λ b. ErrorNamed b.error) bs
      → let (all, reason') =
          restore_batch_result from_json (some (serialize_batch to_json bs reason)) in
        AllRestored bs all × (reason' ≡ reason)
  unfolding restore_batch_result serialize_batch
  restore_batch_result-serialize_batch bs reason h = (all_restored bs h, refl)
