-- ===== src/Basis/Operations.antt =====
-- Each operation of the cache does to its contents what the list of `Basis.Lru` does.
use coffee.Base.{
  ℕ, suc, ◌≤◌, false, Option, none, some, List, [], ◌∷◌, length, Key, find, erase, find-erase, All,
  either, ◌==◌, ◌≡◌, refl, ap, sym, ◌∙◌, subst, arith, inl, inr, Option-cases,
}
use coffee.Basis.Cache.{Cache, kkvv, set_value, find_pair}
use coffee.Basis.Access.{unlinked}
use coffee.Basis.Updates.{valued, valued-IsLinked, find_pair-none, find_pair-some}
use coffee.Basis.Eviction.{IsLinked-But, dropped, dropped-IsLinked}
use coffee.Basis.Lru.{get, without, use_pair}
use coffee.Basis.Order.{contents, unlink-set_value, DistinctNodes, Owned, value_of}
use coffee.Basis.Sizes.{IsCache, IsReady, length-erase, erase-none, erase-DistinctKeys}
use coffee.Basis.Moves.{
  none-AllOther, get-AllOther, unlinked-contents, get-found, update_access-contents,
}

module _ {ℓ κ} {K : Type ℓ} {V : Type κ} where
  length-set_value :
      (node : ℕ) (v : V) (values : List (ℕ × (K × V)))
      → length (set_value node v values) ≡ length values
  unfolding set_value
  length-set_value node v [] = refl
  length-set_value node v ((i, (k, w)) ∷ values) = ground (arith, length-set_value node v values)

  kkvv-none-set_value :
      (node i : ℕ) (v : V) (values : List (ℕ × (K × V)))
      → kkvv i values ≡ none
      → kkvv i (set_value node v values) ≡ none
  unfolding set_value kkvv
  kkvv-none-set_value node i v [] h = refl
  kkvv-none-set_value node i v ((j, (k, w)) ∷ values) h =
      ground (arith, kkvv-none-set_value node i v values)

  set_value-DistinctNodes :
      (node : ℕ) (v : V) (values : List (ℕ × (K × V)))
      → DistinctNodes values
      → DistinctNodes (set_value node v values)
  unfolding set_value DistinctNodes
  set_value-DistinctNodes node v [] d = tt
  set_value-DistinctNodes node v ((i, (k, w)) ∷ values) d =
      either DistinctNodes (i == node) (λ e. d)
        (λ e. (kkvv-none-set_value node i v values d.0, set_value-DistinctNodes node v values d.1))

  -- No node has the number.
  abbrev pub IsDistinct : ℕ → List (ℕ × (K × V)) → Type 0
  IsDistinct n values = All (λ e. (e.0 == n) ≡ false) values

  pub kkvv-none-IsDistinct :
      (n : ℕ) (values : List (ℕ × (K × V))) → kkvv n values ≡ none → IsDistinct n values
  unfolding kkvv
  kkvv-none-IsDistinct n [] h = tt
  kkvv-none-IsDistinct n ((i, kv) ∷ values) h =
      (ground arith, kkvv-none-IsDistinct n values (ground arith))

  node_absent :
      (n : ℕ) (kv : K × V) (rest : List (ℕ × (K × V)))
      → DistinctNodes ((n, kv) ∷ rest)
      → IsDistinct n rest × DistinctNodes rest
  unfolding DistinctNodes
  node_absent n kv rest d = (kkvv-none-IsDistinct n rest d.0, d.1)

module _ {ℓ κ} {K : Type ℓ} {V : Type κ} ⦃key : Key K⦄ where
  set_value-Owned :
      (dict : List (K × ℕ)) (node : ℕ) (v : V) (values : List (ℕ × (K × V)))
      → Owned dict values
      → Owned dict (set_value node v values)
  unfolding set_value
  set_value-Owned dict node v [] o = tt
  set_value-Owned dict node v ((i, (k, w)) ∷ values) o =
      either (Owned dict) (i == node) (λ e. o) (λ e. (o.0, set_value-Owned dict node v values o.1))

  pub valued-IsCache :
      (k : K) (node : ℕ) (v : V) (c : Cache K V)
      → IsCache c
      → find c.quick_access k ≡ some node
      → IsCache (valued node v c)
  unfolding valued
  valued-IsCache k node v c h e = record {
    links = valued-IsLinked k node v c h.links e;
    owned = set_value-Owned c.quick_access node v c.values h.owned;
    nodes = set_value-DistinctNodes node v c.values h.nodes;
    keys = h.keys;
    size = omega (arith, length-set_value node v c.values, h.size);
    bounded = omega (arith, length-set_value node v c.values, h.bounded);
  }

  -- The write of a value changes nothing but the pair of the key.
  pub valued-without :
      (k : K) (node : ℕ) (v : V) (c : Cache K V)
      → IsCache c
      → find c.quick_access k ≡ some node
      → without k (contents (valued node v c).values) ≡ without k (contents c.values)
  unfolding valued unlinked
  valued-without k node v c h e =
      let h' = valued-IsCache k node v c h e in
      sym (unlinked-contents k node (valued node v c) h' e)
      ∙ (ap contents (unlink-set_value node v c.values) ∙ unlinked-contents k node c h e)

  pub get-none :
      (k : K) (c : Cache K V)
      → IsCache c
      → find c.quick_access k ≡ none
      → get k (contents c.values) ≡ none
  get-none k c h e = get-AllOther k c.values (none-AllOther c.quick_access k c.values e h.owned)

  -- A find uses the pair, and returns it.
  pub find_pair-contents :
      (k : K) (c : Cache K V)
      → IsCache c
      → IsCache (find_pair k c).0
        × (contents (find_pair k c).0.values ≡ use_pair k (contents c.values))
        × (value_of (find_pair k c).1 ≡ get k (contents c.values))
  unfolding use_pair
  find_pair-contents k c h = elim (Option-cases (find c.quick_access k)) [
    | inl n ↦
        subst {A = Cache K V × Option (K × V)}
          (λ out.
            IsCache out.0
            × (contents out.0.values ≡ use_pair k (contents c.values))
            × (value_of out.1 ≡ get k (contents c.values)))
          (sym (find_pair-none k c n)) (h, ground (arith, get-none k c h n), sym (get-none k c h n))
    | inr (node, e) ↦
        let (v, at) = h.links.linked k node e in
        let (good, same) = update_access-contents k node v c h e at in
        let found = get-found k node v c h e at in
        subst {A = Cache K V × Option (K × V)}
          (λ out.
            IsCache out.0
            × (contents out.0.values ≡ use_pair k (contents c.values))
            × (value_of out.1 ≡ get k (contents c.values)))
          (sym (find_pair-some k node c e))
          (good, ground (arith, same, found), ap value_of at ∙ sym found)
  ]

  -- A new key goes to the end while there is room.
  pub push_back-room :
      (k : K) (v : V) (c : Cache K V)
      → IsCache c
      → find c.quick_access k ≡ none
      → (length c.quick_access == c.max_size) ≡ false
      → IsReady k c
  push_back-room k v c h n l = record {
    links = IsLinked-But k c h.links;
    others = none-AllOther c.quick_access k c.values n h.owned;
    owned = h.owned;
    nodes = h.nodes;
    keys = h.keys;
    size = ap length (erase-none c.quick_access k n) ∙ h.size;
    room = ground (arith, h.size, h.bounded);
  }

  pub tail-Owned :
      (dict : List (K × ℕ)) (o : K) (n : ℕ) (w : V) (rest : List (ℕ × (K × V)))
      → IsDistinct n rest
      → Owned dict rest
      → find dict o ≡ some n
      → Owned (erase dict o) rest
  tail-Owned dict o n w [] d h e = tt
  tail-Owned dict o n w ((i, (j, u)) ∷ rest) d h e = (
    ground (arith, find-erase dict o j, h.0, d.0, key.same_iff o j),
    tail-Owned dict o n w rest d.1 h.1 e,
  )

  pub dropped-IsReady :
      (k o : K) (v w : V) (n : ℕ) (rest : List (ℕ × (K × V))) (c : Cache K V)
      → IsCache c
      → find c.quick_access k ≡ none
      → c.values ≡ (n, (o, w)) ∷ rest
      → IsReady k (dropped o rest c)
  unfolding dropped
  dropped-IsReady k o v w n rest c h f e =
      let owned : Owned c.quick_access ((n, (o, w)) ∷ rest) =
        subst (Owned c.quick_access) e h.owned in
      let nodes : DistinctNodes ((n, (o, w)) ∷ rest) = subst DistinctNodes e h.nodes in
      let size : length c.quick_access ≡ suc (length rest) = h.size ∙ ap length e in
      let bound : suc (length rest) ≤ c.max_size = subst (λ t. length t ≤ c.max_size) e h.bounded in
      let shorter = length-erase c.quick_access o n h.keys owned.0 in
      let absent = node_absent n (o, w) rest nodes in
      let gone = find-erase c.quick_access o k in
      record {
        links = IsLinked-But k (dropped o rest c) (dropped-IsLinked n o w rest c h.links e);
        others = none-AllOther c.quick_access k rest f owned.1;
        owned = tail-Owned c.quick_access o n w rest absent.0 owned.1 owned.0;
        nodes = absent.1;
        keys = erase-DistinctKeys c.quick_access o h.keys;
        size =
            ap length (erase-none (erase c.quick_access o) k (ground (arith, gone)))
            ∙ omega (arith, shorter, size);
        room = bound;
      }
