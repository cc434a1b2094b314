-- ===== src/Common/Map.antt =====
-- A map of the program, as an association list: `set` writes in place or at the end, as the
-- insertion order of a JavaScript `Map` and of an object's keys does.
use mathlib.Core.Path.{◌≡◌, refl}
use mathlib.Core.Logic.{ite, ◌≢◌, ◌⊎◌}
use mathlib.Core.Option.{Option, none, some}
use mathlib.Core.List.{List, [], ◌∷◌}
use native.Mathlib.Omega.{arith}

module _ {K : Type 0} (d : Discrete K) {V : Type 0} where
  unfoldable pub get : List (K × V) → K → Option V
  get [] k = none
  get ((j, v) ∷ m) k = ite (d j k) (some v) (get m k)

  unfoldable pub set : List (K × V) → K → V → List (K × V)
  set [] k v = (k, v) ∷ []
  set ((j, w) ∷ m) k v = ite (d j k) ((j, v) ∷ m) ((j, w) ∷ set m k v)

  unfoldable pub delete : List (K × V) → K → List (K × V)
  delete [] k = []
  delete ((j, w) ∷ m) k = ite (d j k) (delete m k) ((j, w) ∷ delete m k)

  pub get-set :
      (m : List (K × V)) (k : K) (v : V) (j : K)
      → get (set m k v) j ≡ ite (d k j) (some v) (get m j)
  unfolding get set
  get-set [] k v j = refl
  get-set ((i, w) ∷ m) k v j = ground (arith, get-set m k v j)

  pub get-delete : (m : List (K × V)) (k j : K) → get (delete m k) j ≡ ite (d k j) none (get m j)
  unfolding get delete
  get-delete [] k j = ground arith
  get-delete ((i, w) ∷ m) k j = ground (arith, get-delete m k j)

  -- What is found after a write was written, or was there before.
  pub get-set_cases :
      (m : List (K × V)) (k : K) (v : V) (j : K) (w : V)
      → get (set m k v) j ≡ some w
      → ((k ≡ j) × (v ≡ w)) ⊎ (get m j ≡ some w)
  get-set_cases m k v j w h = ground (arith, get-set m k v j)

  pub get-set_held :
      (m : List (K × V)) (k : K) (v : V) (j : K)
      → (k ≡ j) ⊎ (get m j ≢ none)
      → get (set m k v) j ≢ none
  get-set_held m k v j h = ground (arith, get-set m k v j)
