-- ===== src/Basis/Removal.antt =====
-- `erase` of the cache does to its contents what `without` does to the list of `Basis.Lru`.
use coffee.Base.{
  ℕ, Bool, true, false, none, some, List, [], ◌∷◌, Key, find, erase, find-erase, ◌≡◌, refl, sym,
  subst, arith, inl, inr, Option-cases,
}
use coffee.Basis.Cache.{Cache, kkvv, unlink, erase_key}
use coffee.Basis.Access.{IsLinked, IsLinkedBut, unlinked, unlinked-IsLinkedBut}
use coffee.Basis.Erasure.{removed, erase_key-some, erase_key-none}
use coffee.Basis.Lru.{get, without}
use coffee.Basis.Order.{contents, contents-unlink, length-unlink, unlink-DistinctNodes, Owned}
use coffee.Basis.Sizes.{IsCache, AllOther, length-erase, erase-DistinctKeys}
use coffee.Basis.Moves.{marks, unlink-AllOther, unlink-Owned, get-found}
use coffee.Basis.Operations.{get-none}

module _ {ℓ κ} {K : Type ℓ} {V : Type κ} ⦃key : Key K⦄ where
  without-none : (k : K) (pairs : List (K × V)) → get k pairs ≡ none → without k pairs ≡ pairs
  unfolding get without
  without-none k [] n = refl
  without-none k ((j, v) ∷ pairs) n = ground (arith, without-none k pairs)

  removed-Owned :
      (dict : List (K × ℕ)) (k : K) (values : List (ℕ × (K × V)))
      → AllOther k values
      → Owned dict values
      → Owned (erase dict k) values
  removed-Owned dict k [] a o = tt
  removed-Owned dict k ((i, (j, v)) ∷ values) a o = (
    ground (arith, find-erase dict k j, key.same_iff k j, key.same_iff j k, a.0, o.0),
    removed-Owned dict k values a.1 o.1,
  )

  removed_link :
      (k : K) (node : ℕ) (c : Cache K V)
      → IsLinkedBut k (unlinked node c)
      → (j : K) (other : ℕ) → find (erase c.quick_access k) j ≡ some other
      → (v : V) × (kkvv other (unlink node c.values) ≡ some (j, v))
  unfolding unlinked
  removed_link k node c b j other h =
      let looked = find-erase c.quick_access k j in
      b.linked j other (ground (arith, looked, key.same_iff k j, key.same_iff j k))
        (ground (arith, looked))

  removed-IsLinked :
      (k : K) (node : ℕ) (c : Cache K V)
      → IsLinkedBut k (unlinked node c)
      → IsLinked (removed k node c)
  unfolding unlinked removed
  removed-IsLinked k node c b = record {
    linked = λ j other h. removed_link k node c b j other h;
    older = b.older;
  }

  removed-IsCache :
      (k : K) (node : ℕ) (v : V) (c : Cache K V)
      → IsCache c
      → find c.quick_access k ≡ some node
      → kkvv node c.values ≡ some (k, v)
      → IsCache (removed k node c)
  unfolding removed
  removed-IsCache k node v c h e at =
      let m = marks c k node h.links h.owned e in
      let shorter = length-unlink node (k, v) c.values h.nodes at in
      record {
        links = removed-IsLinked k node c (unlinked-IsLinkedBut k node c h.links e);
        owned =
            removed-Owned c.quick_access k (unlink node c.values)
              (unlink-AllOther node k c.values m)
              (unlink-Owned c.quick_access node c.values h.owned);
        nodes = unlink-DistinctNodes node c.values h.nodes;
        keys = erase-DistinctKeys c.quick_access k h.keys;
        size = omega (arith, shorter, h.size, length-erase c.quick_access k node h.keys e);
        bounded = omega (arith, shorter, h.bounded);
      }

  removed-contents :
      (k : K) (node : ℕ) (c : Cache K V)
      → IsCache c
      → find c.quick_access k ≡ some node
      → contents (removed k node c).values ≡ without k (contents c.values)
  unfolding removed
  removed-contents k node c h e = contents-unlink node k c.values (marks c k node h.links h.owned e)

  -- Whether the key of a list of pairs is there.
  unfoldable pub has_key : K → List (K × V) → Bool
  has_key k pairs = elim (get k pairs) [ none ↦ false | some v ↦ true ]

  pub erase_key-contents :
      (k : K) (c : Cache K V)
      → IsCache c
      → IsCache (erase_key k c).0
        × (contents (erase_key k c).0.values ≡ without k (contents c.values))
        × ((erase_key k c).1 ≡ has_key k (contents c.values))
        × ((erase_key k c).0.max_size ≡ c.max_size)
  unfolding has_key removed
  erase_key-contents k c h = elim (Option-cases (find c.quick_access k)) [
    | inl n ↦
        let absent = get-none k c h n in
        subst {A = Cache K V × Bool}
          (λ out.
            IsCache out.0
            × (contents out.0.values ≡ without k (contents c.values))
            × (out.1 ≡ has_key k (contents c.values))
            × (out.0.max_size ≡ c.max_size))
          (sym (erase_key-none k c n))
          (h, sym (without-none k (contents c.values) absent), ground (arith, absent), refl)
    | inr (node, e) ↦
        let (v, at) = h.links.linked k node e in
        let present = get-found k node v c h e at in
        subst {A = Cache K V × Bool}
          (λ out.
            IsCache out.0
            × (contents out.0.values ≡ without k (contents c.values))
            × (out.1 ≡ has_key k (contents c.values))
            × (out.0.max_size ≡ c.max_size))
          (sym (erase_key-some k node c e))
          (
            removed-IsCache k node v c h e at,
            removed-contents k node c h e,
            ground (arith, present),
            refl,
          )
  ]
