-- ===== src/Basis/Lru.antt =====
-- What the cache promises: a list of pairs, those used longest ago first, with no key twice.
use coffee.Base.{ℕ, Option, none, some, List, [], ◌∷◌, ◌++◌, length, Key, if◌then◌else◌, ◌==◌}

module _ {ℓ κ} {K : Type ℓ} {V : Type κ} ⦃key : Key K⦄ where
  unfoldable pub get : K → List (K × V) → Option V
  get k [] = none
  get k ((j, v) ∷ pairs) = if key.same j k then some v else get k pairs

  unfoldable pub without : K → List (K × V) → List (K × V)
  without k [] = []
  without k ((j, v) ∷ pairs) =
      let others = without k pairs in if key.same j k then others else (j, v) ∷ others

  -- A use makes a pair the newest.
  unfoldable pub use_pair : K → List (K × V) → List (K × V)
  use_pair k pairs = elim (get k pairs) [ none ↦ pairs | some v ↦ without k pairs ++ (k, v) ∷ [] ]

  unfoldable pub rest_of : List (K × V) → List (K × V)
  rest_of [] = []
  rest_of (pair ∷ pairs) = pairs

  unfoldable pub put_pair : ℕ → K → V → List (K × V) → List (K × V)
  put_pair limit k v pairs = elim (get k pairs) [
    | some _ ↦ without k pairs ++ (k, v) ∷ []
    | none ↦ if length pairs == limit then rest_of pairs ++ (k, v) ∷ [] else pairs ++ (k, v) ∷ []
  ]
