-- ===== src/Basis/Eviction.antt =====
-- `set` of the cache: what it adds, and what it forgets.
use coffee.Base.{
  ℕ, true, false, none, some, List, [], ◌∷◌, length, Key, find, erase, find-erase, same_refl,
  if◌then◌else◌, ◌==◌, ==_iff, ◌≡◌, ◌≢◌, ◌⊎◌, refl, ap, ◌∙◌, subst, arith, inl, inr, Option-cases,
  Bool-cases,
}
use coffee.Basis.Cache.{Cache, kkvv, push_back, update_access, drop_oldest, set_pair}
use coffee.Basis.Access.{lookup, IsLinked, IsLinkedBut, push_back-IsLinked, lookup-push_back}
use coffee.Basis.Updates.{update_access-Holds, Holds, valued, valued-IsLinked, lookup-valued}

find_head {ℓ} :
    {K : Type ℓ} ⦃key : Key K⦄ (k : K) (node : ℕ) (dict : List (K × ℕ))
    → find ((k, node) ∷ dict) k ≡ some node
unfolding find
find_head k node dict = ground (arith, same_refl k)

module _ {ℓ κ} {K : Type ℓ} {V : Type κ} where
  kkvv-tail :
      (n node : ℕ) (kv : K × V) (values rest : List (ℕ × (K × V)))
      → values ≡ (n, kv) ∷ rest
      → kkvv node values ≡ (if n == node then some kv else kkvv node rest)
  unfolding kkvv
  kkvv-tail n node kv values rest h = ap (kkvv node) h

module _ {ℓ κ} {K : Type ℓ} {V : Type κ} ⦃key : Key K⦄ where
  -- The cache without its oldest pair, whose key is `k`.
  unfoldable pub dropped : K → List (ℕ × (K × V)) → Cache K V → Cache K V
  dropped k rest c = record c { values = rest; quick_access = erase c.quick_access k }

  pub dropped-IsLinked :
      (n : ℕ) (k : K) (v : V) (rest : List (ℕ × (K × V))) (c : Cache K V)
      → IsLinked c
      → c.values ≡ (n, (k, v)) ∷ rest
      → IsLinked (dropped k rest c)
  unfolding dropped
  dropped-IsLinked n k v rest c h e = record {
    linked = λ j node f.
        let looked = find-erase c.quick_access k j in
        let (w, at) = h.linked j node (ground (arith, looked)) in
        (
          w,
          ground (
            arith,
            looked,
            kkvv-tail n node (k, v) c.values rest e,
            key.same_iff k j,
            ==_iff n node,
          ),
        );
    older = λ node m.
        ground (arith, kkvv-tail n node (k, v) c.values rest e, h.older node m, ==_iff n node);
  }

  lookup-dropped :
      (n : ℕ) (k j : K) (v : V) (rest : List (ℕ × (K × V))) (c : Cache K V)
      → IsLinked c
      → c.values ≡ (n, (k, v)) ∷ rest
      → lookup (dropped k rest c) j ≡ (if key.same k j then none else lookup c j)
  unfolding dropped lookup
  lookup-dropped n k j v rest c h e = elim (Option-cases (find c.quick_access j)) [
    | inl q ↦ ground (arith, find-erase c.quick_access k j)
    | inr (node, f) ↦
        let (w, at) = h.linked j node f in
        ground (
          arith,
          find-erase c.quick_access k j,
          kkvv-tail n node (k, v) c.values rest e,
          key.same_iff k j,
          ==_iff n node,
        )
  ]

  -- A key is the oldest of a cache that is full.
  unfoldable pub Evicted : K → Cache K V → Type (ℓ ⊔ κ)
  Evicted j c =
      (length c.quick_access ≡ c.max_size)
      × ((n : ℕ) × (v : V) × (rest : List (ℕ × (K × V))) × (c.values ≡ (n, (j, v)) ∷ rest))

  -- What `set` does for the key that is set, and for another one.
  unfoldable pub Set : K → V → K → Cache K V → Cache K V → Type (ℓ ⊔ κ)
  Set k v j c c' =
      IsLinked c'
      × (lookup c' k ≡ some (k, v))
      × ((lookup c' j ≡ lookup c j)
          ⊎ ((lookup c' j ≡ none) × (find c.quick_access k ≡ none) × Evicted j c))

  pub IsLinked-But : (k : K) (c : Cache K V) → IsLinked c → IsLinkedBut k c
  IsLinked-But k c h = record { linked = λ j node s f. h.linked j node f; older = h.older }

  set_pair-found :
      (k j : K) (v : V) (node : ℕ) (c : Cache K V)
      → IsLinked c
      → key.same j k ≡ false
      → find c.quick_access k ≡ some node
      → Set k v j c (update_access node (valued node v c))
  unfolding Set Holds valued
  set_pair-found k j v node c h s e =
      let (linked, holds) =
        update_access-Holds k node (valued node v c) (valued-IsLinked k node v c h e) e in
      (
        linked,
        ground (arith, holds k, lookup-valued k k node v c h e, same_refl k),
        inl (ground (arith, holds j, lookup-valued k j node v c h e)),
      )

  set_pair-room :
      (k j : K) (v : V) (c : Cache K V)
      → IsLinked c
      → key.same j k ≡ false
      → Set k v j c (push_back (k, v) c)
  unfolding Set
  set_pair-room k j v c h s =
      let but = IsLinked-But k c h in
      (
        push_back-IsLinked k v c but,
        ground (arith, lookup-push_back k k v c but, same_refl k),
        inl (ground (arith, lookup-push_back k j v c but)),
      )

  set_pair-full :
      (k j o : K) (v w : V) (n : ℕ) (rest : List (ℕ × (K × V))) (c : Cache K V)
      → IsLinked c
      → key.same j k ≡ false
      → find c.quick_access k ≡ none
      → length c.quick_access ≡ c.max_size
      → c.values ≡ (n, (o, w)) ∷ rest
      → Set k v j c (push_back (k, v) (dropped o rest c))
  unfolding Set Evicted
  set_pair-full k j o v w n rest c h s f full e =
      let c1 = dropped o rest c in
      let but = IsLinked-But k c1 (dropped-IsLinked n o w rest c h e) in
      (
        push_back-IsLinked k v c1 but,
        ground (arith, lookup-push_back k k v c1 but, same_refl k),
        elim (Bool-cases (key.same o j)) [
          | inl q ↦ inr (
            ground (arith, lookup-push_back k j v c1 but, lookup-dropped n o j w rest c h e),
            f,
            (
              full,
              (n, w, rest, subst (λ t. c.values ≡ (n, (t, w)) ∷ rest) ((key.same_iff o j).0 q) e),
            ),
          )
          | inr q ↦
              inl (ground (arith, lookup-push_back k j v c1 but, lookup-dropped n o j w rest c h e))
        ],
      )

  pub set_pair-some :
      (k : K) (v : V) (node : ℕ) (c : Cache K V)
      → find c.quick_access k ≡ some node
      → set_pair k v c ≡ some (update_access node (valued node v c))
  unfolding set_pair valued
  set_pair-some k v node c e = simp (set_pair, e)

  pub set_pair-push :
      (k : K) (v : V) (c : Cache K V)
      → find c.quick_access k ≡ none
      → (length c.quick_access == c.max_size) ≡ false
      → set_pair k v c ≡ some (push_back (k, v) c)
  unfolding set_pair
  set_pair-push k v c e l = simp (set_pair, e, l)

  pub set_pair-drop :
      (k o : K) (v w : V) (n : ℕ) (rest : List (ℕ × (K × V))) (c : Cache K V)
      → find c.quick_access k ≡ none
      → (length c.quick_access == c.max_size) ≡ true
      → c.values ≡ (n, (o, w)) ∷ rest
      → set_pair k v c ≡ some (push_back (k, v) (dropped o rest c))
  unfolding set_pair drop_oldest dropped
  set_pair-drop k o v w n rest c e l q = ground (arith, e, l, q)

  nothing :
      (values : List (ℕ × (K × V))) (node : ℕ) (k : K)
      → (v : V) × (kkvv node values ≡ some (k, v))
      → values ≡ []
      → ⊥
  unfolding kkvv
  nothing [] node k (v, h) e = cc
  nothing (x ∷ xs) node k (v, h) e = cc

  -- A cache that is full of a positive number of pairs has an oldest one.
  pub has_oldest :
      (c : Cache K V)
      → IsLinked c
      → length c.quick_access ≡ c.max_size
      → c.max_size ≢ 0
      → (n : ℕ) × (o : K) × (w : V) × (rest : List (ℕ × (K × V))) × (c.values ≡ (n, (o, w)) ∷ rest)
  has_oldest c h full m = go c.values refl c.quick_access refl
    where
      go :
          (values : List (ℕ × (K × V)))
          → c.values ≡ values
          → (dict : List (K × ℕ)) → c.quick_access ≡ dict
          → (n : ℕ) × (o : K) × (w : V) × (rest : List (ℕ × (K × V))) × (c.values
              ≡ (n, (o, w)) ∷ rest)
      go ((n, (o, w)) ∷ rest) e dict f = (n, o, w, rest, e)
      go [] e [] f = absurd (m (ground (arith, full, f)))
      go [] e ((k, node) ∷ dict) f = absurd (
          nothing c.values node k (h.linked k node (ap (λ d. find d k) f ∙ find_head k node dict))
            e)

  -- A cache whose quick access leads to the nodes of its keys, and whose limit is not 0, takes any
  -- pair: afterwards its quick access leads to the nodes again and it holds the pair, and for each
  -- other key what it held before, unless the key was new, the cache was full, and the other key was
  -- its oldest one; that one is forgotten.
  pub set_pair-Set :
      (k j : K) (v : V) (c : Cache K V)
      → IsLinked c
      → c.max_size ≢ 0
      → key.same j k ≡ false
      → (c' : Cache K V) × (set_pair k v c ≡ some c') × Set k v j c c'
  set_pair-Set k j v c h m s = elim (Option-cases (find c.quick_access k)) [
    | inr (node, e) ↦ (_, set_pair-some k v node c e, set_pair-found k j v node c h s e)
    | inl e ↦ elim (Bool-cases (length c.quick_access == c.max_size)) [
      | inr l ↦ (_, set_pair-push k v c e l, set_pair-room k j v c h s)
      | inl l ↦
          let full = (==_iff (length c.quick_access) c.max_size).0 l in
          let (n, o, w, rest, q) = has_oldest c h full m in
          (_, set_pair-drop k o v w n rest c e l q, set_pair-full k j o v w n rest c h s e full q)
    ]
  ]
