-- ===== src/Persistence/Repeated.antt =====
-- A load that follows a load of the same key.
use coffee.Base.{
  refl, ℕ, Option, none, some, Result, ok, raise, List, [], ◌∷◌, ◌++◌, Key, same_refl, ◌≡◌, ◌⊎◌,
  inl, inr, ap, sym, ◌∙◌, subst, arith,
}
use coffee.Basis.Lru.{get, without, use_pair, put_pair, rest_of}
use coffee.Dbms.Driver.{Error, Driver}
use coffee.Persistence.Storage.{StorageError, Storage, World, Inside, Loader, load, engine}
use coffee.Persistence.Guards.{Thrown, Entered}
use coffee.Persistence.Outcomes.{pairs_of, IsStorage, Refreshed, Hit, Fault, Refused, Loaded}
use coffee.Persistence.Caching.{load-Loaded}

-- The handle in the cache after a load that has returned `handle`: the one that was there, if any.
unfoldable pub cached : Option ℕ → ℕ → ℕ
cached none handle = handle
cached (some old) handle = old

module _ {K : Type 0} ⦃key : Key K⦄ where
  get-without : (k : K) (pairs : List (K × ℕ)) → get k (without k pairs) ≡ none
  unfolding get without
  get-without k [] = refl
  get-without k ((j, w) ∷ pairs) = ground (arith, get-without k pairs)

  -- A pair at the end is found, if none before has its key.
  get-append :
      (k : K) (v : ℕ) (pairs : List (K × ℕ))
      → get k pairs ≡ none
      → get k (pairs ++ (k, v) ∷ []) ≡ some v
  unfolding get
  get-append k v [] n = ground (arith, same_refl k)
  get-append k v ((j, w) ∷ pairs) n = ground (arith, get-append k v pairs)

  get-rest_of : (k : K) (pairs : List (K × ℕ)) → get k pairs ≡ none → get k (rest_of pairs) ≡ none
  unfolding get rest_of
  get-rest_of k [] n = n
  get-rest_of k ((j, w) ∷ pairs) n = ground arith

  get-use_pair :
      (k : K) (handle : ℕ) (pairs : List (K × ℕ))
      → get k pairs ≡ some handle
      → get k (use_pair k pairs) ≡ some handle
  unfolding use_pair
  get-use_pair k handle pairs h =
      ground (arith, get-append k handle (without k pairs) (get-without k pairs))

  get-put_pair :
      (limit : ℕ) (k : K) (handle : ℕ) (pairs : List (K × ℕ))
      → get k pairs ≡ none
      → get k (put_pair limit k handle pairs) ≡ some handle
  unfolding put_pair
  get-put_pair limit k handle pairs h = ground (
    arith,
    get-append k handle (rest_of pairs) (get-rest_of k pairs h),
    get-append k handle pairs h,
  )

module _ {S V K : Type 0} ⦃key : Key K⦄ where
  -- What a load that succeeds leaves is found.
  Loaded-get :
      (d : Driver S) (w : World S V) (loader : Loader S V K) (s s' : Storage K)
      (result : Result StorageError ℕ) (handle : ℕ)
      → Loaded loader d w s s' result
      → result ≡ ok handle
      → get loader.primary_key (pairs_of s')
        ≡ some (cached (get loader.primary_key (pairs_of s)) handle)
  unfolding Refused Hit Fault cached
  Loaded-get d w loader s s' result handle (g, l, inl ((e', t, r), q, q', q'')) e = cc
  Loaded-get d w loader s s' result handle (g, l, inr (i, en, inl ((found, f, r), same, q, q'))) e =
      ap (get loader.primary_key) same
      ∙ (get-use_pair loader.primary_key found (pairs_of s) f
          ∙ ap (λ o. some (cached o handle)) (sym f))
  Loaded-get d w loader s s' result handle
        (g, l, inr (i, en, inr (f, q, q', c, inl (new, ok_new, same)))) e =
      ap (get loader.primary_key) same
      ∙ (get-put_pair s.cache.max_size loader.primary_key new (pairs_of s) f
          ∙ ground (arith, f, e, ok_new))
  Loaded-get d w loader s s' result handle
        (g, l, inr (i, en, inr (f, q, q', c, inr (x, failed, same)))) e =
      cc

  -- A load of what is cached.
  abbrev pub FromCache :
      Driver S
      → World S V
      → Loader S V K
      → ℕ
      → Storage K
      → Storage K
      → Result StorageError ℕ
      → Type 0
  FromCache d w loader handle s s' result =
      (s'.fault_counter ≡ s.fault_counter)
      × (((e : Error) × Thrown d w e × (result ≡ raise (engine e)))
          ⊎ ((i : Inside S V) × Entered d w i × Refreshed loader i handle result))

  Loaded-FromCache :
      (d : Driver S) (w : World S V) (loader : Loader S V K) (s s' : Storage K)
      (result : Result StorageError ℕ) (handle : ℕ)
      → Loaded loader d w s s' result
      → get loader.primary_key (pairs_of s) ≡ some handle
      → FromCache d w loader handle s s' result
  unfolding Refused Hit Fault
  Loaded-FromCache d w loader s s' result handle (g, l, inl (r, same, q, q')) n = (q', inl r)
  Loaded-FromCache d w loader s s' result handle
        (g, l, inr (i, en, inl ((found, f, r), same, q, q'))) n =
      let one : found ≡ handle = cc in
      (q', inr (i, en, subst (λ h. Refreshed loader i h result) one r))
  Loaded-FromCache d w loader s s' result handle (g, l, inr (i, en, inr (f, q, q', c, r))) n = cc

  -- After a load that returns an object, on a storage that satisfies its invariant, the next load of
  -- the same key, whatever its connection and its loader, counts no fault and does not create the
  -- object again: unless a guard's constructor throws, it returns the object that the cache holds, as
  -- its own loader leaves it after a refresh that the loader may want, or throws as that loader does.
  -- The cache holds the object that it held before the first load, or else the one that the first
  -- load has returned.
  pub load_again :
      (d : Driver S) (w next : World S V) (loader second : Loader S V K) (s : Storage K)
      (handle : ℕ)
      → IsStorage s
      → (load d w loader s).1.1 ≡ ok handle
      → second.primary_key ≡ loader.primary_key
      → (let s1 = (load d w loader s).1.0 in
          FromCache d next second
            (cached (get loader.primary_key (pairs_of s)) handle)
            s1
            (load d next second s1).1.0
            (load d next second s1).1.1)
  load_again d w next loader second s handle h e same =
      let first = load-Loaded d w loader s h in
      let s1 = (load d w loader s).1.0 in
      let found = Loaded-get d w loader s s1 (load d w loader s).1.1 handle first e in
      Loaded-FromCache d next second s1 (load d next second s1).1.0 (load d next second s1).1.1 _
        (load-Loaded d next second s1 first.0) (ap (λ k. get k (pairs_of s1)) same ∙ found)
