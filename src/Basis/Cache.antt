-- ===== src/Basis/Cache.antt =====
-- source/include/coffee/basis/pattern/lru/Cache.hpp: a bounded map that forgets what was used longest
-- ago.
--
-- `m_values`, a list that is never moved, has a number for each node: an iterator is that number, and
-- a new node takes a new one. `m_quickAccess` gives the node of a key.
use coffee.Base.{
  ℕ, suc, Bool, true, false, Option, none, some, List, [], ◌∷◌, ◌++◌, length, Key, find, assign,
  erase, if◌then◌else◌, ◌==◌,
}

pub record Cache {ℓ κ} (K : Type ℓ) (V : Type κ) : Type (ℓ ⊔ κ) where
  pub max_size : ℕ
  pub values : List (ℕ × (K × V))
  pub quick_access : List (K × ℕ)
  pub next_node : ℕ

unfoldable pub is_last : ℕ → Option ℕ → Bool
is_last node none = false
is_last node (some i) = i == node

module _ {ℓ κ} {K : Type ℓ} {V : Type κ} where
  -- The pair that an iterator stands at.
  unfoldable pub kkvv : ℕ → List (ℕ × (K × V)) → Option (K × V)
  kkvv node [] = none
  kkvv node ((i, kv) ∷ values) = if i == node then some kv else kkvv node values

  -- `std::list::erase`.
  unfoldable pub unlink : ℕ → List (ℕ × (K × V)) → List (ℕ × (K × V))
  unlink node [] = []
  unlink node ((i, kv) ∷ values) =
      let rest = unlink node values in if i == node then rest else (i, kv) ∷ rest

  unfoldable pub last_value : List (ℕ × (K × V)) → Option ℕ
  last_value [] = none
  last_value ((i, kv) ∷ []) = some i
  last_value ((i, kv) ∷ next ∷ values) = last_value (next ∷ values)

  -- The write of a value through an iterator.
  unfoldable pub set_value : ℕ → V → List (ℕ × (K × V)) → List (ℕ × (K × V))
  set_value node v [] = []
  set_value node v ((i, (k, w)) ∷ values) =
      if i == node then (i, (k, v)) ∷ values else (i, (k, w)) ∷ set_value node v values

module _ {ℓ κ} {K : Type ℓ} {V : Type κ} ⦃key : Key K⦄ where
  -- `push_back` of a pair, whose key is then found there.
  unfoldable pub push_back : K × V → Cache K V → Cache K V
  push_back (k, v) c = record c {
    values = c.values ++ (c.next_node, (k, v)) ∷ [];
    quick_access = assign c.quick_access k c.next_node;
    next_node = suc c.next_node;
  }

  unfoldable pub update_access : ℕ → Cache K V → Cache K V
  update_access node c =
      if is_last node (last_value c.values) then c else elim (kkvv node c.values) [
        | none ↦ c
        | some kv ↦ push_back kv (record c { values = unlink node c.values })
      ]

  -- `find`, and the pair that its iterator stands at: `none` is `end ()`.
  unfoldable pub find_pair : K → Cache K V → Cache K V × Option (K × V)
  find_pair k c = elim (find c.quick_access k) [
    | none ↦ (c, none)
    | some node ↦ (update_access node c, kkvv node c.values)
  ]

  unfoldable pub erase_key : K → Cache K V → Cache K V × Bool
  erase_key k c = elim (find c.quick_access k) [
    | none ↦ (c, false)
    | some node ↦
        (record c { values = unlink node c.values; quick_access = erase c.quick_access k }, true)
  ]

  -- The oldest pair goes. There is none if the cache holds nothing: the source then reads the front
  -- of an empty list.
  unfoldable pub drop_oldest : Cache K V → Option (Cache K V)
  drop_oldest c = elim c.values [
    | [] ↦ none
    | (node, (k, v)) ∷ values ↦
        some (record c { values = values; quick_access = erase c.quick_access k })
  ]

  -- `none` stands for the undefined behaviour of `drop_oldest`.
  unfoldable pub set_pair : K → V → Cache K V → Option (Cache K V)
  set_pair k v c = elim (find c.quick_access k) [
    | some node ↦ some (update_access node (record c { values = set_value node v c.values }))
    | none ↦
        if length c.quick_access == c.max_size
        then elim (drop_oldest c) [ none ↦ none | some c' ↦ some (push_back (k, v) c') ]
        else some (push_back (k, v) c)
  ]
