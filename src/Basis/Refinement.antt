-- ===== src/Basis/Refinement.antt =====
-- A run of `find`, `set` and `erase` on the cache, and the same run on the list of `Basis.Lru`.
use coffee.Base.{
  ℕ, ◌≤◌, Bool, Option, none, some, List, [], ◌∷◌, length, Key, find, ◌≡◌, ◌≢◌, refl, ap, sym, ◌∙◌,
  arith, inl, inr, Option-cases,
}
use coffee.Basis.Cache.{Cache, find_pair, set_pair, erase_key}
use coffee.Basis.Updates.{find_pair-none, find_pair-some}
use coffee.Basis.Lru.{get, without, use_pair, put_pair}
use coffee.Basis.Order.{contents, value_of}
use coffee.Basis.Sizes.{IsCache}
use coffee.Basis.Operations.{find_pair-contents}
use coffee.Basis.Writes.{set_pair-contents, update_access-max_size}
use coffee.Basis.Removal.{has_key, erase_key-contents}

pub data Request {ℓ κ} (K : Type ℓ) (V : Type κ) : Type (ℓ ⊔ κ) where
  find_of : K → Request K V
  set_of : K → V → Request K V
  erase_of : K → Request K V

pub data Reply {κ} (V : Type κ) : Type κ where
  found : Option V → Reply V
  stored : Reply V
  erased : Bool → Reply V

module _ {ℓ κ} {K : Type ℓ} {V : Type κ} ⦃key : Key K⦄ where
  -- One call of the cache: `none` is the undefined behaviour of `set`.
  unfoldable pub call : Request K V → Cache K V → Option (Cache K V × Reply V)
  call (find_of k) c = some ((find_pair k c).0, found (value_of (find_pair k c).1))
  call (set_of k v) c = elim (set_pair k v c) [ none ↦ none | some c' ↦ some (c', stored) ]
  call (erase_of k) c = some ((erase_key k c).0, erased (erase_key k c).1)

  unfoldable pub calls : List (Request K V) → Cache K V → Option (Cache K V × List (Reply V))
  calls [] c = some (c, [])
  calls (r ∷ rs) c = elim (call r c) [
    | none ↦ none
    | some (c', reply) ↦ elim (calls rs c') [
      | none ↦ none
      | some (c'', replies) ↦ some (c'', reply ∷ replies)
    ]
  ]

  -- What the list answers to one call, and to several.
  unfoldable pub answer : ℕ → Request K V → List (K × V) → List (K × V) × Reply V
  answer limit (find_of k) pairs = (use_pair k pairs, found (get k pairs))
  answer limit (set_of k v) pairs = (put_pair limit k v pairs, stored)
  answer limit (erase_of k) pairs = (without k pairs, erased (has_key k pairs))

  unfoldable pub answers : ℕ → List (Request K V) → List (K × V) → List (K × V) × List (Reply V)
  answers limit [] pairs = (pairs, [])
  answers limit (r ∷ rs) pairs =
      let (pairs', reply) = answer limit r pairs in
      let (pairs'', replies) = answers limit rs pairs' in (pairs'', reply ∷ replies)

  pub find_pair-max_size : (k : K) (c : Cache K V) → (find_pair k c).0.max_size ≡ c.max_size
  find_pair-max_size k c = elim (Option-cases (find c.quick_access k)) [
    | inl n ↦ ap (λ out. out.0.max_size) (find_pair-none k c n)
    | inr (node, e) ↦
        ap (λ out. out.0.max_size) (find_pair-some k node c e) ∙ update_access-max_size node c
  ]

  call-answer :
      (r : Request K V) (c : Cache K V)
      → IsCache c
      → c.max_size ≢ 0
      → (c' : Cache K V) × (call r c ≡ some (c', (answer c.max_size r (contents c.values)).1))
        × IsCache c'
        × (contents c'.values ≡ (answer c.max_size r (contents c.values)).0)
        × (c'.max_size ≡ c.max_size)
  unfolding call answer
  call-answer (find_of k) c h m =
      let (good, same, value) = find_pair-contents k c h in
      ((find_pair k c).0, ground (arith, value), good, same, find_pair-max_size k c)
  call-answer (set_of k v) c h m =
      let (c', e, good, same, limit) = set_pair-contents k v c h m in
      (c', ground (arith, e), good, same, limit)
  call-answer (erase_of k) c h m =
      let (good, same, flag, limit) = erase_key-contents k c h in
      ((erase_key k c).0, ground (arith, flag), good, same, limit)

  -- A run of finds, sets and erases on a cache that satisfies its invariant, with a limit other than
  -- 0, has a defined result: it gives the replies, and leaves the contents, that the same run gives
  -- on the list of the pairs in the order of their use, where a find or a set makes its pair the
  -- newest and a set of a new key in a full list drops the oldest pair. The invariant and the limit
  -- are kept, so the cache never holds more pairs than its limit.
  pub calls-answers :
      (rs : List (Request K V)) (c : Cache K V)
      → IsCache c
      → c.max_size ≢ 0
      → (c' : Cache K V) × (calls rs c ≡ some (c', (answers c.max_size rs (contents c.values)).1))
        × (contents c'.values ≡ (answers c.max_size rs (contents c.values)).0)
        × IsCache c'
        × (c'.max_size ≡ c.max_size)
        × (length c'.values ≤ c.max_size)
  unfolding calls answers
  calls-answers [] c h m = (c, refl, refl, h, refl, h.bounded)
  calls-answers (r ∷ rs) c h m =
      let (c', e, good, same, limit) = call-answer r c h m in
      let (c'', e', same', good', limit', size) =
        calls-answers rs c' good (λ z. m (sym limit ∙ z)) in
      (
        c'',
        ground (arith, e, e', same, limit),
        ground (arith, same, same', limit),
        good',
        limit' ∙ limit,
        ground (arith, size, limit),
      )
