-- ===== src/Persistence/Caching.antt =====
-- What each call of the storage leaves in its cache and its counters.
use coffee.Base.{
  ℕ, Bool, true, false, Option, none, some, Result, ok, raise, List, [], ◌∷◌, ◌++◌, length, Key,
  ◌≡◌, ◌⊎◌, inl, inr, refl, sym, ◌∙◌, subst, arith, Result-cases,
}
use coffee.Basis.Cache.{Cache, find_pair}
use coffee.Basis.Lru.{get, use_pair, put_pair}
use coffee.Basis.Order.{contents, value_of}
use coffee.Basis.Sizes.{IsCache}
use coffee.Basis.Operations.{find_pair-contents}
use coffee.Basis.Writes.{set_pair-contents}
use coffee.Basis.Refinement.{find_pair-max_size}
use coffee.Dbms.Driver.{ResultCode, successful, Error, Driver}
use coffee.Persistence.Guards.{guards-cases}
use coffee.Persistence.Outcomes.{
  pairs_of, IsStorage, Answers, Applied, Hit, Kept, Fault, Refused, Within, Loaded,
}
use coffee.Persistence.Storage.{
  refresh, StorageError, database, no_front, Storage, World, Inside, Loader, count, check, keep,
  load_created, load_fault, load_hit, load_found, load, engine, no_match,
}

module _ {K : Type 0} ⦃key : Key K⦄ where
  use_pair-none : (k : K) (pairs : List (K × ℕ)) → get k pairs ≡ none → use_pair k pairs ≡ pairs
  unfolding use_pair
  use_pair-none k pairs h = ground arith

module _ {K : Type 0} ⦃key : Key K⦄ where
  -- The storage after a fault, before the object is kept.
  abbrev faulted : Storage K → Cache K ℕ → Storage K
  faulted s c = record {
    cache = c;
    hit_counter = s.hit_counter;
    fault_counter = count s.fault_counter;
  }

  -- What `keep` leaves, and what it returns.
  abbrev KeptAt :
      K
      → Storage K
      → ℕ
      → Result StorageError (Unit {0})
      → Storage K
      → Result StorageError ℕ
      → Type 0
  KeptAt k s handle r s' result =
      IsStorage s'
      × (s'.cache.max_size ≡ s.cache.max_size)
      × (s'.hit_counter ≡ s.hit_counter)
      × (s'.fault_counter ≡ count s.fault_counter)
      × (((r ≡ ok tt)
            × (result ≡ ok handle)
            × (pairs_of s' ≡ put_pair s.cache.max_size k handle (pairs_of s)))
          ⊎ ((e : StorageError) × (r ≡ raise e) × (result ≡ raise e) × (pairs_of s' ≡ pairs_of s)))

  keep-KeptAt :
      (k : K) (s : Storage K) (c : Cache K ℕ) (handle : ℕ) (r : Result StorageError (Unit {0}))
      → IsStorage s
      → IsCache c
      → contents c.values ≡ pairs_of s
      → c.max_size ≡ s.cache.max_size
      → KeptAt k s handle r (keep k (faulted s c) handle r).0 (keep k (faulted s c) handle r).1
  unfolding keep
  keep-KeptAt k s c handle (raise e) h good same limit = (
    record { cache = good; limit = λ z. h.limit (sym limit ∙ z) },
    limit,
    refl,
    refl,
    inr (e, refl, refl, same),
  )
  keep-KeptAt k s c handle (ok u) h good same limit =
      let (c', e, good', same', limit') =
        set_pair-contents k handle c good (λ z. h.limit (sym limit ∙ z)) in
      subst {A = Option (Cache K ℕ)}
        (λ o.
          (let out = elim o as (λ x. Storage K × Result StorageError ℕ) [
            | none ↦ (faulted s c, raise no_front)
            | some c' ↦ (record (faulted s c) { cache = c' }, ok handle)
          ] in
            KeptAt k s handle (ok u) out.0 out.1))
        (sym e)
        (
          record { cache = good'; limit = λ z. h.limit (sym limit ∙ (sym limit' ∙ z)) },
          limit' ∙ limit,
          refl,
          refl,
          inl (refl, refl, ground (arith, same', same, limit)),
        )

check-cases :
    {A : Type 0} (r : Result Error ResultCode) (a : A)
    → ((check r tt ≡ ok tt) × (check r a ≡ ok a))
      ⊎ ((e : StorageError) × (check r tt ≡ raise e) × (check r a ≡ raise e))
unfolding check
check-cases (raise e) a = inr (engine e, refl, refl)
check-cases (ok r) a = elim (Result-cases (successful r)) [
  | inl (e, h) ↦ inr (engine e, ground arith, ground arith)
  | inr (true, h) ↦ inl (ground arith, ground arith)
  | inr (false, h) ↦ inr (database r, ground arith, ground arith)
]

module _ {S V K : Type 0} ⦃key : Key K⦄ where
  returned :
      (loader : Loader S V K) (s s' : Storage K) (handle : ℕ) (r : Result Error ResultCode)
      (result : Result StorageError ℕ)
      → (((check r tt ≡ ok tt)
            × (result ≡ ok handle)
            × (pairs_of s' ≡ put_pair s.cache.max_size loader.primary_key handle (pairs_of s)))
          ⊎ ((e : StorageError) × (check r tt ≡ raise e)
              × (result ≡ raise e)
              × (pairs_of s' ≡ pairs_of s)))
      → (result ≡ check r handle) × Kept loader s s' result
  returned loader s s' handle r result kept = elim (check-cases r handle) [
    | inl (c, a) ↦ elim kept [
      | inl (c', q, p) ↦ (q ∙ sym a, inl (handle, q, p))
      | inr (e, c', q, p) ↦ cc
    ]
    | inr (e, c, a) ↦ elim kept [ inl (c', q, p) ↦ cc | inr (e', c', q, p) ↦ (cc, inr (e', q, p)) ]
  ]

  load_created-Within :
      (loader : Loader S V K) (s : Storage K) (c : Cache K ℕ) (i : Inside S V) (created : Option V)
      → loader.create_object loader.primary_key ≡ created
      → IsStorage s
      → get loader.primary_key (pairs_of s) ≡ none
      → IsCache c
      → contents c.values ≡ pairs_of s
      → c.max_size ≡ s.cache.max_size
      → (let out = load_created loader (faulted s c) i created in Within loader i s out.1.0 out.1.1)
  unfolding load_created Fault Applied
  load_created-Within loader s c i none o h n good same limit = (
    record { cache = good; limit = λ z. h.limit (sym limit ∙ z) },
    limit,
    inr (
      n,
      refl,
      refl,
      subst (λ x. Applied loader i x (raise no_match)) (sym o) refl,
      inr (no_match, refl, same),
    ),
  )
  load_created-Within loader s c i (some object) o h n good same limit =
      let out = loader.apply (record i { objects = i.objects ++ object ∷ [] }) (length i.objects) in
      let (g, l, hits, faults, kept) =
        keep-KeptAt loader.primary_key s c out.1 (check out.2 tt) h good same limit in
      let s' = (keep loader.primary_key (faulted s c) out.1 (check out.2 tt)).0 in
      let r = (keep loader.primary_key (faulted s c) out.1 (check out.2 tt)).1 in
      let (result, left) = returned loader s s' out.1 out.2 r kept in
      (g, l, inr (n, hits, faults, subst (λ x. Applied loader i x r) (sym o) result, left))

  refresh-Answers :
      (loader : Loader S V K) (i : Inside S V) (handle : ℕ) (due : Result Error Bool)
      → Answers loader i handle due (refresh loader i handle due).1
  unfolding refresh Answers
  refresh-Answers loader i handle (raise e) = refl
  refresh-Answers loader i handle (ok false) = refl
  refresh-Answers loader i handle (ok true) = refl

  load_found-Within :
      (loader : Loader S V K) (s : Storage K) (c : Cache K ℕ) (vv : Option (K × ℕ)) (i : Inside S V)
      → IsStorage s
      → value_of vv ≡ get loader.primary_key (pairs_of s)
      → IsCache c
      → contents c.values ≡ use_pair loader.primary_key (pairs_of s)
      → c.max_size ≡ s.cache.max_size
      → (let out = load_found loader (record s { cache = c }) vv i in
          Within loader i s out.1.0 out.1.1)
  unfolding load_found load_fault load_hit Hit
  load_found-Within loader s c none i h v good same limit =
      let n = sym v in
      load_created-Within loader s c i (loader.create_object loader.primary_key) refl h n good
        (same ∙ use_pair-none loader.primary_key (pairs_of s) n) limit
  load_found-Within loader s c (some pair) i h v good same limit =
      let (i', handle', due) = loader.has_to_refresh i pair.1 in
      (
        record { cache = good; limit = λ z. h.limit (sym limit ∙ z) },
        limit,
        inl ((pair.1, sym v, refresh-Answers loader i' handle' due), same, refl, refl),
      )

  -- Every outcome of a load on a storage that satisfies its invariant, which the load keeps with the
  -- cache's limit. Where a guard's constructor throws, the load throws that exception, counts
  -- nothing, and has only made the object of the key, if it is cached, the one used last. Otherwise,
  -- where the object is cached, the load makes it the one used last and counts one hit, and returns
  -- it as the loader leaves it, after a refresh if the loader wants one, or throws as the loader does.
  -- Where it is not, the load counts one fault, creates an object and returns it as the loader leaves
  -- it, having put it in the cache, for which a full cache has dropped the object used longest ago,
  -- or throws, as the class or the loader does, and leaves the cache as it was.
  pub load-Loaded :
      (d : Driver S) (w : World S V) (loader : Loader S V K) (s : Storage K)
      → IsStorage s
      → Loaded loader d w s (load d w loader s).1.0 (load d w loader s).1.1
  unfolding load Refused
  load-Loaded d w loader s h =
      let k = loader.primary_key in
      let (good, same, value) = find_pair-contents k s.cache h.cache in
      let c = (find_pair k s.cache).0 in
      let vv = (find_pair k s.cache).1 in
      let limit = find_pair-max_size k s.cache in
      let s1 : Storage K = record s { cache = c } in
      elim (guards-cases d w (λ e. (s1, raise (engine e))) (load_found loader s1 vv)) [
        | inl (e, thrown, q) ↦
            subst (λ out. Loaded loader d w s out.0 out.1) (sym q)
              (
                record { cache = good; limit = λ z. h.limit (sym limit ∙ z) },
                limit,
                inl ((e, thrown, refl), same, refl, refl),
              )
        | inr (i, entered, q) ↦
            let (g, l, which) = load_found-Within loader s c vv i h value good same limit in
            subst (λ out. Loaded loader d w s out.0 out.1) (sym q) (g, l, inr (i, entered, which))
      ]
