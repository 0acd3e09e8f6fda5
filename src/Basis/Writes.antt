-- ===== src/Basis/Writes.antt =====
-- `set` and `erase` of the cache do to its contents what the list of `Basis.Lru` does.
use coffee.Base.{
  ℕ, some, List, ◌∷◌, length, Key, find, ◌==◌, ==_iff, ◌≡◌, ◌≢◌, refl, ap, sym, arith, inl, inr,
  Option-cases, Bool-cases,
}
use coffee.Basis.Cache.{Cache, kkvv, push_back, update_access, set_pair, is_last, last_value}
use coffee.Basis.Updates.{valued, kkvv-set_value}
use coffee.Basis.Eviction.{dropped, set_pair-push, set_pair-drop, set_pair-some, has_oldest}
use coffee.Basis.Lru.{put_pair, rest_of}
use coffee.Basis.Order.{contents, length-contents}
use coffee.Basis.Sizes.{IsCache, push_back-IsCache}
use coffee.Basis.Moves.{update_access-contents, get-found}
use coffee.Basis.Operations.{
  valued-IsCache, valued-without, get-none, push_back-room, dropped-IsReady,
}

module _ {ℓ κ} {K : Type ℓ} {V : Type κ} ⦃key : Key K⦄ where
  pub update_access-max_size :
      (node : ℕ) (c : Cache K V) → (update_access node c).max_size ≡ c.max_size
  unfolding update_access push_back
  update_access-max_size node c = elim (Bool-cases (is_last node (last_value c.values))) [
    | inl l ↦ ground arith
    | inr l ↦ elim (Option-cases (kkvv node c.values)) [
      | inl n ↦ ground arith
      | inr (kv, e) ↦ ground arith
    ]
  ]

  dropped-contents :
      (i : ℕ) (o : K) (w : V) (rest : List (ℕ × (K × V))) (c : Cache K V)
      → c.values ≡ (i, (o, w)) ∷ rest
      → contents (dropped o rest c).values ≡ rest_of (contents c.values)
  unfolding dropped contents rest_of
  dropped-contents i o w rest c q = ap (λ l. rest_of (contents l)) (sym q)

  -- `set` puts the pair at the end, and drops the first one if there is no room.
  pub set_pair-contents :
      (k : K) (v : V) (c : Cache K V)
      → IsCache c
      → c.max_size ≢ 0
      → (c' : Cache K V) × (set_pair k v c ≡ some c')
        × IsCache c'
        × (contents c'.values ≡ put_pair c.max_size k v (contents c.values))
        × (c'.max_size ≡ c.max_size)
  unfolding put_pair valued push_back dropped
  set_pair-contents k v c h m = elim (Option-cases (find c.quick_access k)) [
    | inr (node, e) ↦
        let (w, at) = h.links.linked k node e in
        let found = get-found k node w c h e at in
        let c1 = valued node v c in
        let (good, same) =
          update_access-contents k node v c1 (valued-IsCache k node v c h e) e
            (ground (arith, kkvv-set_value node node k v w c.values at)) in
        (
          update_access node c1,
          set_pair-some k v node c e,
          good,
          ground (arith, same, found, valued-without k node v c h e),
          update_access-max_size node c1,
        )
    | inl n ↦ elim (Bool-cases (length c.quick_access == c.max_size)) [
      | inr l ↦
          let (good, same) = push_back-IsCache k v c (push_back-room k v c h n l) in
          (
            push_back (k, v) c,
            set_pair-push k v c n l,
            good,
            ground (arith, same, get-none k c h n, length-contents c.values, h.size),
            refl,
          )
      | inl l ↦
          let full = (==_iff (length c.quick_access) c.max_size).0 l in
          let (i, o, w, rest, q) = has_oldest c h.links full m in
          let c1 = dropped o rest c in
          let (good, same) = push_back-IsCache k v c1 (dropped-IsReady k o v w i rest c h n q) in
          (
            push_back (k, v) c1,
            set_pair-drop k o v w i rest c n l q,
            good,
            ground (
              arith,
              same,
              get-none k c h n,
              length-contents c.values,
              h.size,
              full,
              dropped-contents i o w rest c q,
            ),
            refl,
          )
    ]
  ]
