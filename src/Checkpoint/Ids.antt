-- ===== src/Checkpoint/Ids.antt =====
-- checkpoint-manager.ts, `getParentId` and `hasFinishedAncestor`: step ids such as "1-2-3", whose
-- ancestors are the parts before a dash.
use aws_durable_execution_sd.Common.{
  ℕ, zero, suc, ◌≡◌, refl, ap, ◌<◌, ◌≤◌, ◌↔◌, inl, inr, Bool, true, false, Option, none, some, List,
  [], ◌∷◌, Text, length, take, get_elem?, contains, ◌==◌, if◌then◌else◌, Option-cases, Bool-cases,
  arith,
}

-- `lastIndexOf("-")`.
abbrev pub last_index_of_dash : Text → Option ℕ
last_index_of_dash [] = none
last_index_of_dash (c ∷ s) = elim (last_index_of_dash s) [
  | some i ↦ some (suc i)
  | none ↦ if c == b'-' then some 0 else none
]

unfoldable pub get_parent_id : Text → Option Text
get_parent_id s = elim (last_index_of_dash s) [
  | some i ↦ elim i [ zero ↦ none | suc k ↦ some (take (suc k) s) ]
  | none ↦ none
]

-- The `while` loop, on fuel: each round passes to a shorter id.
unfoldable pub finished_ancestor_loop : ℕ → List Text → Option Text → Bool
finished_ancestor_loop zero finished p = false
finished_ancestor_loop (suc f) finished none = false
finished_ancestor_loop (suc f) finished (some p) =
    let rest = finished_ancestor_loop f finished (get_parent_id p) in
    if contains finished p then true else rest

unfoldable pub has_finished_ancestor : List Text → Text → Bool
unfolding finished_ancestor_loop get_parent_id
has_finished_ancestor finished step_id =
    finished_ancestor_loop (suc (length step_id)) finished (get_parent_id step_id)

-- A finished ancestor: a dash at a position after the first, and before it a finished id.
pub record FinishedAbove (finished : List Text) (s : Text) (n : ℕ) : Type 0 where
  pub at : ℕ
  pub inner : 0 < at
  pub below : at < n
  pub dash : get_elem? s at ≡ some b'-'
  pub finished_id : contains finished (take at s) ≡ true

-- The last dash of the first `n` characters is a dash of the text.
last_dash :
    (s : Text) (n i : ℕ)
    → last_index_of_dash (take n s) ≡ some i
    → (i < n) × (get_elem? s i ≡ some b'-')
last_dash s zero i h = absurd (ground arith)
last_dash [] (suc n) i h = absurd (ground arith)
last_dash (c ∷ s) (suc n) zero h = ground arith
last_dash (c ∷ s) (suc n) (suc i) h = ground (arith, last_dash s n i)

-- No dash stands behind it.
no_later_dash :
    (s : Text) (n k : ℕ)
    → k < n
    → get_elem? s k ≡ some b'-'
    → (i : ℕ) × (last_index_of_dash (take n s) ≡ some i) × (k ≤ i)
no_later_dash s zero k lt e = absurd (omega arith)
no_later_dash [] (suc n) k lt e = absurd (ground arith)
no_later_dash (c ∷ s) (suc n) zero lt e = elim (Option-cases (last_index_of_dash (take n s))) [
  | inl f ↦ (0, ground arith, omega arith)
  | inr (i, f) ↦ (suc i, ground arith, omega arith)
]
no_later_dash (c ∷ s) (suc n) (suc k) lt e =
    let (i, f, le) = no_later_dash s n k (omega arith) e in (suc i, ground arith, omega arith)

take-take : (s : Text) (m n : ℕ) → m ≤ n → take m (take n s) ≡ take m s
take-take s zero n h = refl
take-take [] (suc m) zero h = refl
take-take [] (suc m) (suc n) h = refl
take-take (c ∷ s) (suc m) zero h = absurd (omega arith)
take-take (c ∷ s) (suc m) (suc n) h = ap (◌∷◌ c) (take-take s m n (omega arith))

module _ (finished : List Text) (s : Text) where
  FinishedAbove-grow : {m n : ℕ} → m ≤ n → FinishedAbove finished s m → FinishedAbove finished s n
  FinishedAbove-grow h a = record {
    at = a.at;
    inner = a.inner;
    below = omega arith;
    dash = a.dash;
    finished_id = a.finished_id;
  }

  -- What the parent of the first `n` characters is, and that no ancestor is skipped.
  data Parent (n : ℕ) : Type 0 where
    top : get_parent_id (take n s) ≡ none → ¬ FinishedAbove finished s n → Parent n
    up :
        (i : ℕ)
        → 0 < i
        → i < n
        → get_elem? s i ≡ some b'-'
        → get_parent_id (take n s) ≡ some (take i s)
        → ((a : FinishedAbove finished s n) → a.at ≤ i)
        → Parent n

  parent : (n : ℕ) → Parent n
  unfolding get_parent_id
  parent n = by_dash (last_index_of_dash (take n s)) refl
    where
      by_dash : (d : Option ℕ) → last_index_of_dash (take n s) ≡ d → Parent n
      by_dash none e =
          top (ground arith)
            λ a. let (i, f, le) = no_later_dash s n a.at a.below a.dash in ground arith
      by_dash (some zero) e =
          top (ground arith)
            λ a. let (i, f, le) = no_later_dash s n a.at a.below a.dash in ground (arith, a.inner)
      by_dash (some (suc i)) e =
          let (lt, dash) = last_dash s n (suc i) e in
          up (suc i) (omega arith) lt dash
            (rw (e, get_parent_id) (ap some (take-take s (suc i) n (omega arith))))
            λ a. let (j, f, le) = no_later_dash s n a.at a.below a.dash in ground arith

  -- A finished ancestor is not the unfinished one at `i`.
  lower :
      {n : ℕ} (i : ℕ) (a : FinishedAbove finished s n)
      → a.at ≤ i
      → contains finished (take i s) ≡ false
      → FinishedAbove finished s i
  lower i a le no_i = record {
    at = a.at;
    inner = a.inner;
    below = ground (arith, a.finished_id);
    dash = a.dash;
    finished_id = a.finished_id;
  }

  loop_iff :
      (f n : ℕ)
      → n < f
      → (finished_ancestor_loop f finished (get_parent_id (take n s)) ≡ true)
        ↔ FinishedAbove finished s n
  unfolding finished_ancestor_loop
  loop_iff zero n lt = absurd (omega arith)
  loop_iff (suc f) n lt = elim (parent n) [
    | top e none_above ↦ (λ h. absurd (ground arith), λ a. absurd (none_above a))
    | up i pos below dash e highest ↦ elim (Bool-cases (contains finished (take i s))) [
      | inl here ↦ (
        λ h. record { at = i; inner = pos; below = below; dash = dash; finished_id = here },
        λ a. ground arith,
      )
      | inr not_here ↦
          let next = loop_iff f i (omega arith) in
          (
            λ h. FinishedAbove-grow (omega arith) (next.0 (ground arith)),
            λ a. ground (arith, next.1 (lower i a (highest a) not_here)),
          )
    ]
  ]

take-length : (s : Text) → take (length s) s ≡ s
take-length [] = refl
take-length (c ∷ s) = ap (◌∷◌ c) (take-length s)

-- The walk up the ids finds a finished ancestor exactly if some dash of the id, not at its start, has
-- a finished id before it.
pub has_finished_ancestor_iff :
    (finished : List Text) (step_id : Text)
    → (has_finished_ancestor finished step_id ≡ true)
      ↔ FinishedAbove finished step_id (length step_id)
unfolding has_finished_ancestor
has_finished_ancestor_iff finished s =
    rw (take-length s) at (loop_iff finished s (suc (length s)) (length s) (omega arith))
