-- ===== src/Persistence/Erasing.antt =====
-- What an erase of the storage leaves in its cache and its counters.
use coffee.Base.{ok, raise, Key, if◌then◌else◌, ◌≡◌, ◌⊎◌, inl, inr, ap, sym, ◌∙◌, subst, arith}
use coffee.Basis.Cache.{erase_key}
use coffee.Basis.Lru.{without}
use coffee.Basis.Order.{contents}
use coffee.Basis.Sizes.{IsCache}
use coffee.Basis.Removal.{has_key, erase_key-contents}
use coffee.Dbms.Driver.{Error, Driver}
use coffee.Persistence.Storage.{
  Storage, World, Eraser, count, forget, erase_inside, erase, engine, run_accessor,
}
use coffee.Dbms.Guard.{Guard, guard_connection}
use coffee.Persistence.Guards.{opened, with_connection-cases}
use coffee.Persistence.Outcomes.{pairs_of, IsStorage}

module _ {K : Type 0} ⦃key : Key K⦄ where
  -- What an erase leaves, whether the eraser succeeds or not.
  unfoldable pub Erased : K → Storage K → Storage K → Type 0
  Erased k s s' =
      IsStorage s'
      × (pairs_of s' ≡ without k (pairs_of s))
      × (s'.hit_counter ≡ (if has_key k (pairs_of s) then count s.hit_counter else s.hit_counter))
      × (s'.fault_counter
          ≡ (if has_key k (pairs_of s) then s.fault_counter else count s.fault_counter))

  forget-cache : (k : K) (s : Storage K) → (forget k s).cache ≡ (erase_key k s.cache).0
  unfolding forget
  forget-cache k s = ground arith

  forget-Erased : (k : K) (s : Storage K) → IsStorage s → Erased k s (forget k s)
  unfolding forget Erased
  forget-Erased k s h =
      let (good, same, flag, limit) = erase_key-contents k s.cache h.cache in
      let left = forget-cache k s in
      (
        record {
          cache = subst IsCache (sym left) good;
          limit = λ z. h.limit (sym limit ∙ (ap (λ c. c.max_size) (sym left) ∙ z));
        },
        ap (λ c. contents c.values) left ∙ same,
        ground (arith, flag),
        ground (arith, flag),
      )

module _ {S V K : Type 0} ⦃key : Key K⦄ where
  -- On a storage that satisfies its invariant: if the constructor of the connection's guard throws,
  -- an erase throws its exception and leaves the storage as it is. Otherwise it takes the object of
  -- the key out of the cache and counts a hit if it was there and a fault if not, whether the
  -- statement's guard, the eraser and its commit then succeed or not, and its result is theirs; the
  -- invariant is kept.
  pub erase-Erased :
      (d : Driver S) (w : World S V) (eraser : Eraser S V K) (s : Storage K)
      → IsStorage s
      → (let (s', result) = (erase d w eraser s).1 in
          ((e : Error) × ((guard_connection d w.connection).1 ≡ raise e)
            × (s' ≡ s)
            × (result ≡ raise (engine e)))
          ⊎ ((g : Guard S) × ((guard_connection d w.connection).1 ≡ ok g)
              × Erased eraser.primary_key s s'
              × (result
                  ≡ (run_accessor d w.statement_locked eraser.apply eraser.has_auto_commit
                      (opened d w g)).1)))
  unfolding erase erase_inside
  erase-Erased d w eraser s h =
      elim (with_connection-cases d w (λ e. (s, raise (engine e)))
        (erase_inside d w.statement_locked eraser s)) [
          | inl (e, t, q) ↦ inl (e, t, ap (λ out. out.0) q, ap (λ out. out.1) q)
          | inr (g, t, q) ↦ inr (
            g,
            t,
            subst (Erased eraser.primary_key s) (sym (ap (λ out. out.0) q))
                (forget-Erased eraser.primary_key s h),
            ap (λ out. out.1) q,
          )
        ]
