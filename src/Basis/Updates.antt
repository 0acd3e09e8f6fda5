-- ===== src/Basis/Updates.antt =====
-- What the operations of the cache do to what it holds.
use coffee.Base.{
  ℕ, true, false, Option, none, some, List, [], ◌∷◌, Key, find, if◌then◌else◌, ◌==◌, ==_iff, ◌≡◌,
  refl, sym, ◌∙◌, subst, arith, inl, inr, Option-cases, Bool-cases,
}
use coffee.Basis.Cache.{
  Cache, kkvv, last_value, is_last, push_back, update_access, find_pair, set_value,
}
use coffee.Basis.Access.{
  lookup, IsLinked, unlinked, unlinked-IsLinkedBut, lookup-unlinked, push_back-IsLinked,
  lookup-push_back, other_node,
}

module _ {ℓ κ} {K : Type ℓ} {V : Type κ} where
  pub kkvv-set_value :
      (node other : ℕ) (k : K) (v w : V) (values : List (ℕ × (K × V)))
      → kkvv node values ≡ some (k, w)
      → kkvv other (set_value node v values)
        ≡ (if node == other then some (k, v) else kkvv other values)
  unfolding kkvv set_value
  kkvv-set_value node other k v w [] h = cc
  kkvv-set_value node other k v w ((i, (j, u)) ∷ values) h = ground (
    arith,
    kkvv-set_value node other k v w values,
    ==_iff i node,
    ==_iff i other,
    ==_iff node other,
  )

module _ {ℓ κ} {K : Type ℓ} {V : Type κ} ⦃key : Key K⦄ where
  -- What it is to hold the same.
  unfoldable pub Holds : Cache K V → Cache K V → Type (ℓ ⊔ κ)
  Holds c c' = (j : K) → lookup c' j ≡ lookup c j

  pub update_access-moved :
      (node : ℕ) (c : Cache K V) (kv : K × V)
      → is_last node (last_value c.values) ≡ false
      → kkvv node c.values ≡ some kv
      → update_access node c ≡ push_back kv (unlinked node c)
  unfolding update_access unlinked
  update_access-moved node c kv l e = simp (update_access, l, e)

  pub update_access-last :
      (node : ℕ) (c : Cache K V)
      → is_last node (last_value c.values) ≡ true
      → update_access node c ≡ c
  unfolding update_access
  update_access-last node c l = simp (update_access, l)

  lookup-node :
      (k : K) (node : ℕ) (c : Cache K V)
      → find c.quick_access k ≡ some node
      → lookup c k ≡ kkvv node c.values
  unfolding lookup
  lookup-node k node c e = simp (lookup, e)

  pub lookup-none : (k : K) (c : Cache K V) → find c.quick_access k ≡ none → lookup c k ≡ none
  unfolding lookup
  lookup-none k c e = simp (lookup, e)

  -- Using the node of a key moves it, and changes nothing else.
  pub update_access-Holds :
      (k : K) (node : ℕ) (c : Cache K V)
      → IsLinked c
      → find c.quick_access k ≡ some node
      → IsLinked (update_access node c) × Holds c (update_access node c)
  unfolding Holds
  update_access-Holds k node c h e = elim (Bool-cases (is_last node (last_value c.values))) [
    | inl l ↦
        subst (λ c'. IsLinked c' × Holds c c') (sym (update_access-last node c l)) (h, λ j. refl)
    | inr l ↦
        let (v, at) = h.linked k node e in
        let but = unlinked-IsLinkedBut k node c h e in
        subst (λ c'. IsLinked c' × Holds c c') (sym (update_access-moved node c (k, v) l at))
          (
            push_back-IsLinked k v (unlinked node c) but,
            λ j. lookup-push_back k j v (unlinked node c) but ∙ elim (Bool-cases (key.same j k)) [
              | inl s ↦ ground (arith, key.same_iff j k, lookup-node k node c e, at)
              | inr s ↦ ground (arith, lookup-unlinked k j node c h e s)
            ],
          )
  ]

  pub find_pair-none :
      (k : K) (c : Cache K V) → find c.quick_access k ≡ none → find_pair k c ≡ (c, none)
  unfolding find_pair
  find_pair-none k c e = simp (find_pair, e)

  pub find_pair-some :
      (k : K) (node : ℕ) (c : Cache K V)
      → find c.quick_access k ≡ some node
      → find_pair k c ≡ (update_access node c, kkvv node c.values)
  unfolding find_pair
  find_pair-some k node c e = simp (find_pair, e)

  -- A find of a key that the cache holds returns its pair, a find of another one nothing; what the
  -- cache holds for each key stays, and so does the agreement of its two parts.
  pub find_pair-Holds :
      (k : K) (c : Cache K V)
      → IsLinked c
      → IsLinked (find_pair k c).0
        × ((j : K) → lookup (find_pair k c).0 j ≡ lookup c j)
        × ((find_pair k c).1 ≡ lookup c k)
  unfolding find_pair Holds
  find_pair-Holds k c h = elim (Option-cases (find c.quick_access k)) [
    | inl n ↦
        subst {A = Cache K V × Option (K × V)}
          (λ out. IsLinked out.0 × ((j : K) → lookup out.0 j ≡ lookup c j) × (out.1 ≡ lookup c k))
          (sym (find_pair-none k c n)) (h, λ j. refl, sym (lookup-none k c n))
    | inr (node, e) ↦
        let (linked, holds) = update_access-Holds k node c h e in
        subst {A = Cache K V × Option (K × V)}
          (λ out. IsLinked out.0 × ((j : K) → lookup out.0 j ≡ lookup c j) × (out.1 ≡ lookup c k))
          (sym (find_pair-some k node c e)) (linked, holds, sym (lookup-node k node c e))
  ]

  unfoldable pub valued : ℕ → V → Cache K V → Cache K V
  valued node v c = record c { values = set_value node v c.values }

  pub valued-IsLinked :
      (k : K) (node : ℕ) (v : V) (c : Cache K V)
      → IsLinked c
      → find c.quick_access k ≡ some node
      → IsLinked (valued node v c)
  unfolding valued
  valued-IsLinked k node v c h e =
      let (w, at) = h.linked k node e in
      record {
        linked = λ j other f.
            let (u, at') = h.linked j other f in
            elim (Bool-cases (node == other)) [
              | inl q ↦ (
                v,
                ground (arith, kkvv-set_value node other k v w c.values at, ==_iff node other),
              )
              | inr q ↦ (u, ground (arith, kkvv-set_value node other k v w c.values at))
            ];
        older = λ other m. ground (
          arith,
          kkvv-set_value node other k v w c.values at,
          ==_iff node other,
          h.older other m,
        );
      }

  pub lookup-valued :
      (k j : K) (node : ℕ) (v : V) (c : Cache K V)
      → IsLinked c
      → find c.quick_access k ≡ some node
      → lookup (valued node v c) j ≡ (if key.same j k then some (k, v) else lookup c j)
  unfolding valued lookup
  lookup-valued k j node v c h e =
      let (w, at) = h.linked k node e in
      elim (Option-cases (find c.quick_access j)) [
        | inl n ↦ ground (arith, key.same_iff j k)
        | inr (other, f) ↦ ground (
          arith,
          kkvv-set_value node other k v w c.values at,
          ==_iff node other,
          key.same_iff j k,
          other_node k j node other c h e f,
        )
      ]
