-- ===== src/Basis/Access.antt =====
-- What the cache holds for a key, and that using it changes nothing of that.
use coffee.Base.{
  ℕ, ◌≤◌, false, Option, none, some, List, [], ◌∷◌, ◌++◌, Key, find, find-assign, if◌then◌else◌,
  ◌==◌, ==_iff, ◌≡◌, ◌≢◌, arith, inl, inr, Option-cases, Bool-cases,
}
use coffee.Basis.Cache.{Cache, kkvv, unlink, push_back}

module _ {ℓ κ} {K : Type ℓ} {V : Type κ} where
  pub kkvv-unlink :
      (node other : ℕ) (values : List (ℕ × (K × V)))
      → kkvv other (unlink node values) ≡ (if node == other then none else kkvv other values)
  unfolding kkvv unlink
  kkvv-unlink node other [] = ground arith
  kkvv-unlink node other ((i, kv) ∷ values) =
      ground
        (arith, kkvv-unlink node other values, ==_iff i node, ==_iff i other, ==_iff node other)

  -- A node at the end is found if no node before has its number.
  pub kkvv-append :
      (node other : ℕ) (kv : K × V) (values : List (ℕ × (K × V)))
      → kkvv node values ≡ none
      → kkvv other (values ++ (node, kv) ∷ [])
        ≡ (if node == other then some kv else kkvv other values)
  unfolding kkvv
  kkvv-append node other kv [] h = ground arith
  kkvv-append node other kv ((i, kv') ∷ values) h =
      ground
        (arith, kkvv-append node other kv values, ==_iff i node, ==_iff i other, ==_iff node other)

module _ {ℓ κ} {K : Type ℓ} {V : Type κ} ⦃key : Key K⦄ where
  -- What the cache holds for a key.
  unfoldable pub lookup : Cache K V → K → Option (K × V)
  lookup c k = elim (find c.quick_access k) [ none ↦ none | some node ↦ kkvv node c.values ]

  -- The quick access of a key leads to the key's node, and all nodes are older than the next one.
  pub record IsLinked (c : Cache K V) : Type (ℓ ⊔ κ) where
    pub linked :
        (k : K) (node : ℕ)
        → find c.quick_access k ≡ some node
        → (v : V) × (kkvv node c.values ≡ some (k, v))
    pub older : (node : ℕ) → c.next_node ≤ node → kkvv node c.values ≡ none

  -- The same for each key but one.
  pub record IsLinkedBut (k : K) (c : Cache K V) : Type (ℓ ⊔ κ) where
    pub linked :
        (j : K) (node : ℕ)
        → key.same j k ≡ false
        → find c.quick_access j ≡ some node
        → (v : V) × (kkvv node c.values ≡ some (j, v))
    pub older : (node : ℕ) → c.next_node ≤ node → kkvv node c.values ≡ none

  pub push_back-IsLinked :
      (k : K) (v : V) (c : Cache K V) → IsLinkedBut k c → IsLinked (push_back (k, v) c)
  unfolding push_back
  push_back-IsLinked k v c h = record {
    linked = λ j node e.
        let looked = find-assign c.quick_access k j c.next_node in
        let new =
          kkvv-append c.next_node node (k, v) c.values (h.older c.next_node (omega arith)) in
        elim (Bool-cases (key.same j k)) [
          | inl s ↦ (v, ground (arith, looked, new, key.same_iff j k, ==_iff c.next_node node))
          | inr s ↦
              let (w, at) = h.linked j node s (ground (arith, looked)) in
              (w, ground (arith, new, ==_iff c.next_node node, h.older c.next_node (omega arith)))
        ];
    older = λ node m. ground (
      arith,
      kkvv-append c.next_node node (k, v) c.values (h.older c.next_node (omega arith)),
      h.older node,
      ==_iff c.next_node node,
    );
  }

  pub lookup-push_back :
      (k j : K) (v : V) (c : Cache K V)
      → IsLinkedBut k c
      → lookup (push_back (k, v) c) j ≡ (if key.same j k then some (k, v) else lookup c j)
  unfolding push_back lookup
  lookup-push_back k j v c h =
      let looked = find-assign c.quick_access k j c.next_node in
      let none_yet = h.older c.next_node (omega arith) in
      let new = kkvv-append c.next_node c.next_node (k, v) c.values none_yet in
      elim (Bool-cases (key.same j k)) [
        | inl s ↦ ground (arith, looked, new, ==_iff c.next_node c.next_node)
        | inr s ↦ elim (Option-cases (find c.quick_access j)) [
          | inl n ↦ ground (arith, looked)
          | inr (node, e) ↦
              let (w, at) = h.linked j node s e in
              ground (
                arith,
                looked,
                ==_iff c.next_node node,
                kkvv-append c.next_node node (k, v) c.values none_yet,
              )
        ]
      ]

  unfoldable pub unlinked : ℕ → Cache K V → Cache K V
  unlinked node c = record c { values = unlink node c.values }

  -- Two keys that differ have different nodes.
  pub other_node :
      (k j : K) (node other : ℕ) (c : Cache K V)
      → IsLinked c
      → find c.quick_access k ≡ some node
      → find c.quick_access j ≡ some other
      → key.same j k ≡ false
      → node ≢ other
  other_node k j node other c h e f s q =
      let (v, at) = h.linked k node e in
      let (w, at') = h.linked j other f in ground (arith, key.same_iff j k)

  pub unlinked-IsLinkedBut :
      (k : K) (node : ℕ) (c : Cache K V)
      → IsLinked c
      → find c.quick_access k ≡ some node
      → IsLinkedBut k (unlinked node c)
  unfolding unlinked
  unlinked-IsLinkedBut k node c h e = record {
    linked = λ j other s f.
        let (w, at) = h.linked j other f in
        (
          w,
          ground (
            arith,
            kkvv-unlink node other c.values,
            ==_iff node other,
            other_node k j node other c h e f s,
          ),
        );
    older = λ other m. ground (arith, kkvv-unlink node other c.values, h.older other);
  }

  pub lookup-unlinked :
      (k j : K) (node : ℕ) (c : Cache K V)
      → IsLinked c
      → find c.quick_access k ≡ some node
      → key.same j k ≡ false
      → lookup (unlinked node c) j ≡ lookup c j
  unfolding unlinked lookup
  lookup-unlinked k j node c h e s = elim (Option-cases (find c.quick_access j)) [
    | inl n ↦ ground arith
    | inr (other, f) ↦ ground (
      arith,
      kkvv-unlink node other c.values,
      ==_iff node other,
      other_node k j node other c h e f s,
    )
  ]
