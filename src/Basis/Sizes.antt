-- ===== src/Basis/Sizes.antt =====
-- The invariant of the cache, its sizes included, and that a pair at the end keeps it.
use coffee.Base.{
  ℕ, suc, ◌≤◌, false, none, some, List, [], ◌∷◌, ◌++◌, length, Key, find, assign, erase,
  find-assign, find-erase, same_refl, All, All-append, length-append, either, ==_iff, ◌≡◌, refl,
  arith,
}
use coffee.Basis.Cache.{Cache, kkvv, push_back}
use coffee.Basis.Access.{IsLinked, IsLinkedBut, push_back-IsLinked, kkvv-append}
use coffee.Basis.Order.{contents, contents-append, DistinctNodes, Owned}

module _ {ℓ κ} {K : Type ℓ} {V : Type κ} ⦃key : Key K⦄ where
  unfoldable pub DistinctKeys : List (K × V) → Type κ
  DistinctKeys [] = Unit
  DistinctKeys ((k, v) ∷ dict) = (find dict k ≡ none) × DistinctKeys dict

  pub erase-none : (dict : List (K × V)) (k : K) → find dict k ≡ none → erase dict k ≡ dict
  unfolding find erase
  erase-none [] k h = refl
  erase-none ((j, v) ∷ dict) k h = ground (arith, erase-none dict k)

  pub erase-DistinctKeys :
      (dict : List (K × V)) (k : K) → DistinctKeys dict → DistinctKeys (erase dict k)
  unfolding DistinctKeys erase
  erase-DistinctKeys [] k d = tt
  erase-DistinctKeys ((j, v) ∷ dict) k d =
      either DistinctKeys (key.same k j) (λ e. erase-DistinctKeys dict k d.1)
        (λ e. (ground (arith, find-erase dict k j, d.0), erase-DistinctKeys dict k d.1))

  pub length-erase :
      (dict : List (K × V)) (k : K) (v : V)
      → DistinctKeys dict
      → find dict k ≡ some v
      → suc (length (erase dict k)) ≡ length dict
  unfolding DistinctKeys find erase
  length-erase [] k v d h = cc
  length-erase ((j, w) ∷ dict) k v d h =
      ground (arith, key.same_iff k j, erase-none dict k, length-erase dict k v d.1, d.0)

module _ {ℓ κ} {K : Type ℓ} {V : Type κ} ⦃key : Key K⦄ where
  pub record IsCache (c : Cache K V) : Type (ℓ ⊔ κ) where
    pub links : IsLinked c
    pub owned : Owned c.quick_access c.values
    pub nodes : DistinctNodes c.values
    pub keys : DistinctKeys c.quick_access
    pub size : length c.quick_access ≡ length c.values
    pub bounded : length c.values ≤ c.max_size

  -- No pair has the key.
  abbrev pub AllOther : K → List (ℕ × (K × V)) → Type 0
  AllOther k values = All (λ e. key.same e.1.0 k ≡ false) values

  Owned-assign :
      (dict : List (K × ℕ)) (k : K) (node : ℕ) (values : List (ℕ × (K × V)))
      → AllOther k values
      → Owned dict values
      → Owned (assign dict k node) values
  Owned-assign dict k node [] a o = tt
  Owned-assign dict k node ((i, (j, v)) ∷ values) a o =
      (ground (arith, find-assign dict k j node, a.0, o.0), Owned-assign dict k node values a.1 o.1)

  append-DistinctNodes :
      (node : ℕ) (kv : K × V) (values : List (ℕ × (K × V)))
      → DistinctNodes values
      → kkvv node values ≡ none
      → DistinctNodes (values ++ (node, kv) ∷ [])
  unfolding DistinctNodes kkvv
  append-DistinctNodes node kv [] d h = (refl, tt)
  append-DistinctNodes node kv ((i, kv') ∷ values) d h = (
    ground (arith, ==_iff i node, ==_iff node i, kkvv-append node i kv values, d.0),
    append-DistinctNodes node kv values d.1 (ground arith),
  )

  -- What `push_back` needs: the key is new in the list, though the quick access may still have it.
  pub record IsReady (k : K) (c : Cache K V) : Type (ℓ ⊔ κ) where
    pub links : IsLinkedBut k c
    pub others : AllOther k c.values
    pub owned : Owned c.quick_access c.values
    pub nodes : DistinctNodes c.values
    pub keys : DistinctKeys c.quick_access
    pub size : length (erase c.quick_access k) ≡ length c.values
    pub room : suc (length c.values) ≤ c.max_size

  pub push_back-IsCache :
      (k : K) (v : V) (c : Cache K V)
      → IsReady k c
      → IsCache (push_back (k, v) c)
        × (contents (push_back (k, v) c).values ≡ contents c.values ++ (k, v) ∷ [])
  unfolding push_back assign DistinctKeys contents
  push_back-IsCache k v c r =
      let fresh = r.links.older c.next_node (omega arith) in
      let new : List (ℕ × (K × V)) = (c.next_node, (k, v)) ∷ [] in
      let looked = find-assign c.quick_access k k c.next_node in
      (
        record {
          links = push_back-IsLinked k v c r.links;
          owned =
              All-append (λ e. find (assign c.quick_access k c.next_node) e.1.0 ≡ some e.0) c.values
                new (Owned-assign c.quick_access k c.next_node c.values r.others r.owned)
                (ground (arith, looked, same_refl k), tt);
          nodes = append-DistinctNodes c.next_node (k, v) c.values r.nodes fresh;
          keys = (
            ground (arith, find-erase c.quick_access k k, same_refl k),
            erase-DistinctKeys c.quick_access k r.keys,
          );
          size = omega (arith, length-append c.values new, r.size);
          bounded = omega (arith, length-append c.values new, r.room);
        },
        contents-append c.values new,
      )
