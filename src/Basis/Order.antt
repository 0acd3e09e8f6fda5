-- ===== src/Basis/Order.antt =====
-- The nodes of the cache in the order of their use.
use coffee.Base.{
  either, ℕ, suc, true, Option, none, some, List, [], ◌∷◌, ◌++◌, length, Key, find, All, ◌==◌,
  ==_iff, ◌≡◌, ◌≢◌, refl, ap, arith,
}
use coffee.Basis.Cache.{kkvv, unlink, last_value, is_last, set_value}
use coffee.Basis.Access.{kkvv-unlink}
use coffee.Basis.Lru.{get, without}

module _ {ℓ κ} {K : Type ℓ} {V : Type κ} where
  unfoldable pub contents : List (ℕ × (K × V)) → List (K × V)
  contents [] = []
  contents ((node, kv) ∷ values) = kv ∷ contents values

  pub contents-append :
      (xs ys : List (ℕ × (K × V))) → contents (xs ++ ys) ≡ contents xs ++ contents ys
  unfolding contents
  contents-append [] ys = refl
  contents-append (x ∷ xs) ys = ap (λ l. x.1 ∷ l) (contents-append xs ys)

  pub length-contents : (xs : List (ℕ × (K × V))) → length (contents xs) ≡ length xs
  unfolding contents
  length-contents [] = refl
  length-contents (x ∷ xs) = ap suc (length-contents xs)

  -- No number of a node twice.
  unfoldable pub DistinctNodes : List (ℕ × (K × V)) → Type (ℓ ⊔ κ)
  DistinctNodes [] = Unit
  DistinctNodes ((node, kv) ∷ values) = (kkvv node values ≡ none) × DistinctNodes values

  last-kkvv :
      (node : ℕ) (values : List (ℕ × (K × V)))
      → is_last node (last_value values) ≡ true
      → kkvv node values ≢ none
  unfolding is_last last_value kkvv
  last-kkvv node [] h n = cc
  last-kkvv node ((i, kv) ∷ []) h n = ground arith
  last-kkvv node ((i, kv) ∷ y ∷ ys) h n = ground (arith, last-kkvv node (y ∷ ys))

  -- To move the last node to the end changes nothing.
  pub unlink-last :
      (node : ℕ) (kv : K × V) (values : List (ℕ × (K × V)))
      → DistinctNodes values
      → is_last node (last_value values) ≡ true
      → kkvv node values ≡ some kv
      → unlink node values ++ (node, kv) ∷ [] ≡ values
  unfolding DistinctNodes is_last last_value kkvv unlink
  unlink-last node kv [] d l h = cc
  unlink-last node kv ((i, kv') ∷ []) d l h = ground (arith, ==_iff i node)
  unlink-last node kv ((i, kv') ∷ y ∷ ys) d l h =
      ground (arith, ==_iff i node, unlink-last node kv (y ∷ ys) d.1, last-kkvv node (y ∷ ys), d.0)

  pub unlink-set_value :
      (node : ℕ) (v : V) (values : List (ℕ × (K × V)))
      → unlink node (set_value node v values) ≡ unlink node values
  unfolding unlink set_value
  unlink-set_value node v [] = refl
  unlink-set_value node v ((i, (k, w)) ∷ values) = ground (arith, unlink-set_value node v values)

  unlink-none :
      (node : ℕ) (values : List (ℕ × (K × V)))
      → kkvv node values ≡ none
      → unlink node values ≡ values
  unfolding unlink kkvv
  unlink-none node [] h = refl
  unlink-none node ((i, kv) ∷ values) h = ground (arith, unlink-none node values)

  pub length-unlink :
      (node : ℕ) (kv : K × V) (values : List (ℕ × (K × V)))
      → DistinctNodes values
      → kkvv node values ≡ some kv
      → suc (length (unlink node values)) ≡ length values
  unfolding unlink kkvv DistinctNodes
  length-unlink node kv [] d h = cc
  length-unlink node kv ((i, kv') ∷ values) d h =
      ground (arith, ==_iff i node, unlink-none node values, length-unlink node kv values d.1, d.0)

  pub unlink-DistinctNodes :
      (node : ℕ) (values : List (ℕ × (K × V)))
      → DistinctNodes values
      → DistinctNodes (unlink node values)
  unfolding DistinctNodes unlink
  unlink-DistinctNodes node [] d = tt
  unlink-DistinctNodes node ((i, kv) ∷ values) d =
      either DistinctNodes (i == node) (λ e. unlink-DistinctNodes node values d.1)
        (λ e.
          (ground (arith, d.0, kkvv-unlink node i values), unlink-DistinctNodes node values d.1))

module _ {ℓ κ} {K : Type ℓ} {V : Type κ} ⦃key : Key K⦄ where
  -- The nodes with the number `node` are those with the key `k`.
  unfoldable pub Marks : ℕ → K → List (ℕ × (K × V)) → Type 0
  Marks node k [] = Unit
  Marks node k ((i, (j, v)) ∷ values) = ((i == node) ≡ key.same j k) × Marks node k values

  pub contents-unlink :
      (node : ℕ) (k : K) (values : List (ℕ × (K × V)))
      → Marks node k values
      → contents (unlink node values) ≡ without k (contents values)
  unfolding contents unlink without Marks
  contents-unlink node k [] m = refl
  contents-unlink node k ((i, (j, v)) ∷ values) m =
      ground (arith, contents-unlink node k values m.1, m.0)

  abbrev pub value_of : Option (K × V) → Option V
  value_of none = none
  value_of (some kv) = some kv.1

  pub get-contents :
      (node : ℕ) (k : K) (values : List (ℕ × (K × V)))
      → Marks node k values
      → get k (contents values) ≡ value_of (kkvv node values)
  unfolding contents kkvv get Marks
  get-contents node k [] m = refl
  get-contents node k ((i, (j, v)) ∷ values) m = ground (arith, get-contents node k values m.1, m.0)

  -- The quick access of the key of each node leads to the node.
  abbrev pub Owned : List (K × ℕ) → List (ℕ × (K × V)) → Type 0
  Owned dict values = All (λ e. find dict e.1.0 ≡ some e.0) values

  pub Owned-Marks :
      (dict : List (K × ℕ)) (node : ℕ) (k : K)
      → find dict k ≡ some node
      → ((j : K) → find dict j ≡ some node → key.same j k ≡ true)
      → (values : List (ℕ × (K × V))) → Owned dict values
      → Marks node k values
  unfolding Marks
  Owned-Marks dict node k e h [] o = tt
  Owned-Marks dict node k e h ((i, (j, v)) ∷ values) o = (
    ground (arith, ==_iff i node, key.same_iff j k, h j, o.0),
    Owned-Marks dict node k e h values o.1,
  )
