-- ===== src/Basis/Erasure.antt =====
-- `erase` of the cache.
use coffee.Base.{
  ℕ, Bool, true, false, none, some, Key, find, erase, find-erase, if◌then◌else◌, ==_iff, ◌≡◌, sym,
  subst, arith, inl, inr, Option-cases,
}
use coffee.Basis.Cache.{Cache, unlink, erase_key}
use coffee.Basis.Access.{lookup, IsLinked, kkvv-unlink, other_node}
use coffee.Basis.Updates.{lookup-none}

module _ {ℓ κ} {K : Type ℓ} {V : Type κ} ⦃key : Key K⦄ where
  unfoldable pub removed : K → ℕ → Cache K V → Cache K V
  removed k node c = record c {
    values = unlink node c.values;
    quick_access = erase c.quick_access k;
  }

  removed-lookup :
      (k j : K) (node : ℕ) (c : Cache K V)
      → IsLinked c
      → find c.quick_access k ≡ some node
      → lookup (removed k node c) j ≡ (if key.same k j then none else lookup c j)
  unfolding removed lookup
  removed-lookup k j node c h e = elim (Option-cases (find c.quick_access j)) [
    | inl q ↦ ground (arith, find-erase c.quick_access k j)
    | inr (other, f) ↦ ground (
      arith,
      find-erase c.quick_access k j,
      kkvv-unlink node other c.values,
      ==_iff node other,
      other_node k j node other c h e f,
      key.same_iff k j,
      key.same_iff j k,
    )
  ]

  pub erase_key-some :
      (k : K) (node : ℕ) (c : Cache K V)
      → find c.quick_access k ≡ some node
      → erase_key k c ≡ (removed k node c, true)
  unfolding erase_key removed
  erase_key-some k node c e = simp (erase_key, e)

  pub erase_key-none :
      (k : K) (c : Cache K V) → find c.quick_access k ≡ none → erase_key k c ≡ (c, false)
  unfolding erase_key
  erase_key-none k c e = simp (erase_key, e)

  -- After `erase` of a key a cache whose quick access leads to the nodes of its keys holds nothing for
  -- that key, and for each other key what it held before.
  pub lookup-erase_key :
      (k j : K) (c : Cache K V)
      → IsLinked c
      → lookup (erase_key k c).0 j ≡ (if key.same k j then none else lookup c j)
  lookup-erase_key k j c h = elim (Option-cases (find c.quick_access k)) [
    | inl n ↦
        subst {A = Cache K V × Bool}
          (λ out. lookup out.0 j ≡ (if key.same k j then none else lookup c j))
          (sym (erase_key-none k c n)) (ground (arith, key.same_iff k j, lookup-none k c n))
    | inr (node, e) ↦
        subst {A = Cache K V × Bool}
          (λ out. lookup out.0 j ≡ (if key.same k j then none else lookup c j))
          (sym (erase_key-some k node c e)) (removed-lookup k j node c h e)
  ]
