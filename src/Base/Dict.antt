-- ===== src/Base/Dict.antt =====
-- `std::map` and `std::unordered_map`: lists of keys with their values, for any type of keys that
-- can be compared.
use Prim.Native.Nat.{ℕ}
use Prim.Native.String.{String}
use mathlib.Core.Path.{◌≡◌, refl}
use mathlib.Core.Logic.{◌↔◌}
use mathlib.Core.Bool.{Bool, true}
use mathlib.Core.List.{List, [], ◌∷◌}
use mathlib.Core.Option.{Option, none, some}
use native.Mathlib.Omega.{arith}
use text.Mathlib.Text.{◌==◌ as text_eq}
use text.Mathlib.TextEquality.{eq_iff}
use coffee.Base.Tests.{◌==◌, ==_iff, if◌then◌else◌}

-- Keys, with the test that tells whether two of them are the same.
pub record Key {ℓ} (K : Type ℓ) : Type ℓ where
  pub same : K → K → Bool
  pub same_iff : (j k : K) → (same j k ≡ true) ↔ (j ≡ k)

instance abbrev pub text_key : Key String
text_key = record { same = text_eq; same_iff = eq_iff }

instance abbrev pub number_key : Key ℕ
number_key = record { same = λ j k. j == k; same_iff = ==_iff }

pub same_refl {ℓ} : {K : Type ℓ} ⦃key : Key K⦄ (k : K) → key.same k k ≡ true
same_refl ⦃key⦄ k = (key.same_iff k k).1 refl

module _ {ℓ κ} {K : Type ℓ} {V : Type κ} ⦃key : Key K⦄ where
  -- The value at the first entry of a key.
  unfoldable pub find : List (K × V) → K → Option V
  find [] k = none
  find (entry ∷ dict) k = if key.same k entry.0 then some entry.1 else find dict k

  -- Drops each entry of a key.
  unfoldable pub erase : List (K × V) → K → List (K × V)
  erase [] k = []
  erase (entry ∷ dict) k =
      let rest = erase dict k in if key.same k entry.0 then rest else entry ∷ rest

  -- The value of a key, new or not.
  unfoldable pub assign : List (K × V) → K → V → List (K × V)
  assign dict k v = (k, v) ∷ erase dict k

  pub find-erase :
      (dict : List (K × V)) (k j : K)
      → find (erase dict k) j ≡ (if key.same k j then none else find dict j)
  unfolding find erase
  find-erase [] k j = ground arith
  find-erase ((i, w) ∷ dict) k j = ground (
    arith,
    key.same_iff k i,
    key.same_iff j i,
    key.same_iff k j,
    key.same_iff j k,
    find-erase dict k j,
  )

  pub find-assign :
      (dict : List (K × V)) (k j : K) (v : V)
      → find (assign dict k v) j ≡ (if key.same j k then some v else find dict j)
  unfolding find assign
  find-assign dict k j v = ground (arith, key.same_iff k j, key.same_iff j k, find-erase dict k j)
