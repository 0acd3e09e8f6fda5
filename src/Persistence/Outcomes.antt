-- ===== src/Persistence/Outcomes.antt =====
-- The outcomes of a load of the storage.
use coffee.Base.{
  ℕ, Bool, true, false, Option, none, some, Result, ok, raise, List, ◌∷◌, [], ◌++◌, length, Key,
  ◌≡◌, ◌≢◌, ◌⊎◌,
}
use coffee.Basis.Lru.{get, use_pair, put_pair}
use coffee.Basis.Order.{contents}
use coffee.Basis.Sizes.{IsCache}
use coffee.Dbms.Driver.{Error, Driver}
use coffee.Persistence.Storage.{
  StorageError, Storage, World, Inside, Loader, count, check, engine, no_match,
}
use coffee.Persistence.Guards.{Entered, Thrown}

module _ {K : Type 0} ⦃key : Key K⦄ where
  -- The pairs of keys and handles in the cache, the one used last at the end.
  abbrev pub pairs_of : Storage K → List (K × ℕ)
  pairs_of s = contents s.cache.values

  pub record IsStorage (s : Storage K) : Type 0 where
    pub cache : IsCache s.cache
    pub limit : s.cache.max_size ≢ 0

module _ {S V K : Type 0} where
  -- What the loader's answer on a refresh makes of an object.
  unfoldable pub Answers :
      Loader S V K → Inside S V → ℕ → Result Error Bool → Result StorageError ℕ → Type 0
  Answers loader i handle (raise e) result = result ≡ raise (engine e)
  Answers loader i handle (ok false) result = result ≡ ok handle
  Answers loader i handle (ok true) result =
      let (i', handle', r) = loader.apply i handle in result ≡ check r handle'

  -- The object of `handle` is returned, after the loader has refreshed it if it wants to.
  abbrev pub Refreshed : Loader S V K → Inside S V → ℕ → Result StorageError ℕ → Type 0
  Refreshed loader i handle result =
      let (i', handle', due) = loader.has_to_refresh i handle in
      Answers loader i' handle' due result

  unfoldable pub Applied : Loader S V K → Inside S V → Option V → Result StorageError ℕ → Type 0
  Applied loader i none result = result ≡ raise no_match
  Applied loader i (some object) result =
      let (i', handle, r) =
        loader.apply (record i { objects = i.objects ++ object ∷ [] }) (length i.objects) in
      result ≡ check r handle

  -- The object that the class creates, if it does, is loaded and returned.
  abbrev pub Created : Loader S V K → Inside S V → Result StorageError ℕ → Type 0
  Created loader i result = Applied loader i (loader.create_object loader.primary_key) result

module _ {S V K : Type 0} (loader : Loader S V K) ⦃key : Key K⦄ where
  -- Where the object is in the cache.
  unfoldable pub Hit : Inside S V → Storage K → Storage K → Result StorageError ℕ → Type 0
  Hit i s s' result =
      ((handle : ℕ) × (get loader.primary_key (pairs_of s) ≡ some handle)
        × Refreshed loader i handle result)
      × (pairs_of s' ≡ use_pair loader.primary_key (pairs_of s))
      × (s'.hit_counter ≡ count s.hit_counter)
      × (s'.fault_counter ≡ s.fault_counter)

  -- What is in the cache after a fault: a load that succeeds puts the object there, and one that
  -- fails changes nothing there.
  abbrev pub Kept : Storage K → Storage K → Result StorageError ℕ → Type 0
  Kept s s' result =
      ((handle : ℕ) × (result ≡ ok handle)
        × (pairs_of s' ≡ put_pair s.cache.max_size loader.primary_key handle (pairs_of s)))
      ⊎ ((e : StorageError) × (result ≡ raise e) × (pairs_of s' ≡ pairs_of s))

  -- Where the object is not in the cache.
  unfoldable pub Fault : Inside S V → Storage K → Storage K → Result StorageError ℕ → Type 0
  Fault i s s' result =
      (get loader.primary_key (pairs_of s) ≡ none)
      × (s'.hit_counter ≡ s.hit_counter)
      × (s'.fault_counter ≡ count s.fault_counter)
      × Created loader i result
      × Kept s s' result

  -- Where a guard's constructor throws: the find has used the object.
  unfoldable pub Refused :
      Driver S → World S V → Storage K → Storage K → Result StorageError ℕ → Type 0
  Refused d w s s' result =
      ((e : Error) × Thrown d w e × (result ≡ raise (engine e)))
      × (pairs_of s' ≡ use_pair loader.primary_key (pairs_of s))
      × (s'.hit_counter ≡ s.hit_counter)
      × (s'.fault_counter ≡ s.fault_counter)

  abbrev pub Within : Inside S V → Storage K → Storage K → Result StorageError ℕ → Type 0
  Within i s s' result =
      IsStorage s'
      × (s'.cache.max_size ≡ s.cache.max_size)
      × (Hit i s s' result ⊎ Fault i s s' result)

  abbrev pub Loaded : Driver S → World S V → Storage K → Storage K → Result StorageError ℕ → Type 0
  Loaded d w s s' result =
      IsStorage s'
      × (s'.cache.max_size ≡ s.cache.max_size)
      × (Refused d w s s' result
          ⊎ ((i : Inside S V) × Entered d w i × (Hit i s s' result ⊎ Fault i s s' result)))
