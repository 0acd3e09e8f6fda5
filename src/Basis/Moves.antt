-- ===== src/Basis/Moves.antt =====
-- The node of a key that is used goes to the end of the list, if it is not there yet.
use coffee.Base.{
  ℕ, none, some, List, [], ◌∷◌, ◌++◌, Key, find, either, ◌==◌, ◌≡◌, refl, ap, sym, ◌∙◌, subst,
  arith, inl, inr, Bool-cases,
}
use coffee.Basis.Cache.{Cache, kkvv, unlink, update_access, is_last, last_value}
use coffee.Basis.Access.{IsLinked, other_node, unlinked, unlinked-IsLinkedBut}
use coffee.Basis.Updates.{update_access-moved, update_access-last}
use coffee.Basis.Lru.{get, without}
use coffee.Basis.Order.{
  contents, contents-append, contents-unlink, get-contents, unlink-last, length-unlink,
  unlink-DistinctNodes, Owned, Owned-Marks, Marks, value_of,
}
use coffee.Basis.Sizes.{IsCache, IsReady, AllOther, push_back-IsCache, length-erase}

module _ {ℓ κ} {K : Type ℓ} {V : Type κ} ⦃key : Key K⦄ where
  pub marks :
      (c : Cache K V) (k : K) (node : ℕ)
      → IsLinked c
      → Owned c.quick_access c.values
      → find c.quick_access k ≡ some node
      → Marks node k c.values
  marks c k node h o e =
      Owned-Marks c.quick_access node k e
        (λ j f. elim (Bool-cases (key.same j k)) [
          | inl s ↦ s
          | inr s ↦ absurd (other_node k j node node c h e f s refl)
        ])
        c.values o

  pub unlink-AllOther :
      (node : ℕ) (k : K) (values : List (ℕ × (K × V)))
      → Marks node k values
      → AllOther k (unlink node values)
  unfolding Marks unlink
  unlink-AllOther node k [] m = tt
  unlink-AllOther node k ((i, (j, v)) ∷ values) m =
      either (AllOther k) (i == node) (λ e. unlink-AllOther node k values m.1)
        (λ e. (ground (arith, m.0), unlink-AllOther node k values m.1))

  pub unlink-Owned :
      (dict : List (K × ℕ)) (node : ℕ) (values : List (ℕ × (K × V)))
      → Owned dict values
      → Owned dict (unlink node values)
  unfolding unlink
  unlink-Owned dict node [] o = tt
  unlink-Owned dict node ((i, kv) ∷ values) o =
      either (Owned dict) (i == node) (λ e. unlink-Owned dict node values o.1)
        (λ e. (o.0, unlink-Owned dict node values o.1))

  pub none-AllOther :
      (dict : List (K × ℕ)) (k : K) (values : List (ℕ × (K × V)))
      → find dict k ≡ none
      → Owned dict values
      → AllOther k values
  none-AllOther dict k [] n o = tt
  none-AllOther dict k ((i, (j, v)) ∷ values) n o = (
    elim (Bool-cases (key.same j k)) [ inl s ↦ ground (arith, key.same_iff j k, o.0) | inr s ↦ s ],
    none-AllOther dict k values n o.1,
  )

  pub get-AllOther :
      (k : K) (values : List (ℕ × (K × V))) → AllOther k values → get k (contents values) ≡ none
  unfolding get contents
  get-AllOther k [] a = refl
  get-AllOther k ((i, (j, v)) ∷ values) a = ground (arith, get-AllOther k values a.1, a.0)

  -- A node that is taken out makes the cache ready for a pair of the same key.
  unlinked-IsReady :
      (k : K) (node : ℕ) (v : V) (c : Cache K V)
      → IsCache c
      → find c.quick_access k ≡ some node
      → kkvv node c.values ≡ some (k, v)
      → IsReady k (unlinked node c)
  unfolding unlinked
  unlinked-IsReady k node v c h e at =
      let m = marks c k node h.links h.owned e in
      let shorter = length-unlink node (k, v) c.values h.nodes at in
      record {
        links = unlinked-IsLinkedBut k node c h.links e;
        others = unlink-AllOther node k c.values m;
        owned = unlink-Owned c.quick_access node c.values h.owned;
        nodes = unlink-DistinctNodes node c.values h.nodes;
        keys = h.keys;
        size = omega (arith, shorter, h.size, length-erase c.quick_access k node h.keys e);
        room = omega (arith, shorter, h.bounded);
      }

  pub unlinked-contents :
      (k : K) (node : ℕ) (c : Cache K V)
      → IsCache c
      → find c.quick_access k ≡ some node
      → contents (unlinked node c).values ≡ without k (contents c.values)
  unfolding unlinked
  unlinked-contents k node c h e =
      contents-unlink node k c.values (marks c k node h.links h.owned e)

  pub get-found :
      (k : K) (node : ℕ) (v : V) (c : Cache K V)
      → IsCache c
      → find c.quick_access k ≡ some node
      → kkvv node c.values ≡ some (k, v)
      → get k (contents c.values) ≡ some v
  get-found k node v c h e at =
      get-contents node k c.values (marks c k node h.links h.owned e) ∙ ap value_of at

  -- Using the node of a key makes its pair the newest.
  pub update_access-contents :
      (k : K) (node : ℕ) (v : V) (c : Cache K V)
      → IsCache c
      → find c.quick_access k ≡ some node
      → kkvv node c.values ≡ some (k, v)
      → IsCache (update_access node c)
        × (contents (update_access node c).values ≡ without k (contents c.values) ++ (k, v) ∷ [])
  unfolding contents
  update_access-contents k node v c h e at =
      let removed = unlinked-contents k node c h e in
      elim (Bool-cases (is_last node (last_value c.values))) [
        | inl l ↦
            subst
              (λ c'.
                IsCache c' × (contents c'.values ≡ without k (contents c.values) ++ (k, v) ∷ []))
              (sym (update_access-last node c l))
              (
                h,
                ap contents (sym (unlink-last node (k, v) c.values h.nodes l at))
                    ∙ (contents-append (unlink node c.values) ((node, (k, v)) ∷ [])
                        ∙ ap (λ t. t ++ (k, v) ∷ [])
                            (contents-unlink node k c.values (marks c k node h.links h.owned e))),
              )
        | inr l ↦
            let (good, same) =
              push_back-IsCache k v (unlinked node c) (unlinked-IsReady k node v c h e at) in
            subst
              (λ c'.
                IsCache c' × (contents c'.values ≡ without k (contents c.values) ++ (k, v) ∷ []))
              (sym (update_access-moved node c (k, v) l at))
              (good, same ∙ ap (λ l. l ++ (k, v) ∷ []) removed)
      ]
