-- ===== src/Persistence/Releasing.antt =====
-- The guards of the storage's calls give the connection back.
use coffee.Base.{
  ℕ, suc, Bool, true, false, Option, none, some, Result, ok, raise, [], ◌∷◌, ◌++◌, length, Key, ◌≡◌,
  ◌≢◌, refl, ap, ◌∙◌, arith, Result-cases, inl, inr,
}
use coffee.Basis.Cache.{find_pair}
use coffee.Dbms.Driver.{Error, begin_failed, Driver, ResultCode}
use coffee.Dbms.Connection.{Connection, lock, take_mutex, enter, began, recover}
use coffee.Dbms.Connection.Frame.{commit-Frame}
use coffee.Dbms.Connection.Locking.{IsFree, lock-IsHeld, unlock-IsFree, recover-IsFree}
use coffee.Dbms.Guard.{
  guard_connection, free_guard_connection, guard_statement, free_guard_statement, guard_commit,
}
use coffee.Persistence.Storage.{
  StorageError, Storage, World, Inside, Loader, Recorder, Eraser, check, with_connection,
  with_statement, auto_commit, run_accessor, save_inside, save, load_created, load_fault, load_hit,
  load_found, refresh, load, erase_inside, erase, engine, count,
}

module _ {S V : Type 0} where
  -- What runs inside the guards leaves the lock as it is.
  abbrev pub Keeps : Inside S V → Inside S V → Type 0
  Keeps i i' =
      (i'.guard.connection.locked ≡ i.guard.connection.locked)
      × (i'.guard.connection.locking_counter ≡ i.guard.connection.locking_counter)

  Keeps_trans : (a b c : Inside S V) → Keeps a b → Keeps b c → Keeps a c
  Keeps_trans a b c (l, n) (m, k) = (m ∙ l, k ∙ n)

module _ {S V A : Type 0} (d : Driver S) where
  with_statement-Keeps :
      (b : Bool) (i : Inside S V) (failed : Error → A) (body : Inside S V → Inside S V × A)
      → ((j : Inside S V) → Keeps j (body j).0)
      → Keeps i (with_statement d b i failed body).0
  unfolding with_statement guard_statement free_guard_statement
  with_statement-Keeps b i failed body h = ground (
    arith,
    h (record i {
      guard = record i.guard { count_linked_statement = suc i.guard.count_linked_statement };
    }),
  )

module _ {S : Type 0} (d : Driver S) where
  take_mutex_refused :
      (c : Connection S) (e : Error)
      → IsFree c
      → (take_mutex d c).1 ≡ raise e
      → e ≢ begin_failed
      → IsFree (take_mutex d c).0
  unfolding take_mutex enter began
  take_mutex_refused c e f r n = ground (arith, f.mutex, f.count)

  lock_refused :
      (c : Connection S) (e : Error)
      → IsFree c
      → (lock d c).1 ≡ raise e
      → e ≢ begin_failed
      → IsFree (lock d c).0
  unfolding lock
  lock_refused c e f r n = ground (
    arith,
    f.mutex,
    f.count,
    take_mutex_refused c e f,
    recover-IsFree d c f,
    take_mutex_refused (recover d c).0 e (recover-IsFree d c f),
  )

module _ {S V A : Type 0} (d : Driver S) where
  with_connection-IsFree :
      (w : World S V) (failed : Error → A) (body : Inside S V → Inside S V × A)
      → ((j : Inside S V) → Keeps j (body j).0)
      → IsFree w.connection
      → (lock d w.connection).1 ≢ raise begin_failed
      → IsFree (with_connection d w failed body).0.connection
  unfolding with_connection guard_connection free_guard_connection
  with_connection-IsFree w failed body h f n = elim (Result-cases (lock d w.connection).1) [
    | inl (e, q) ↦ ground (arith, lock_refused d w.connection e f q (λ z. n (q ∙ ap raise z)))
    | inr (u, q) ↦
        let i : Inside S V = record {
          guard = record { connection = (lock d w.connection).0; count_linked_statement = 0 };
          statement = w.statement;
          objects = w.objects;
        } in
        let held = lock-IsHeld d w.connection f q in
        let kept = h i in
        ground
          (arith, unlock-IsFree d (body i).0.guard.connection (omega (arith, held.count, kept.1)))
  ]

module _ {S V : Type 0} where
  -- The client's loader leaves the lock of the guarded connection alone.
  pub record IsLoader {K : Type 0} (loader : Loader S V K) : Type 0 where
    pub apply : (i : Inside S V) (n : ℕ) → Keeps i (loader.apply i n).0
    pub refresh : (i : Inside S V) (n : ℕ) → Keeps i (loader.has_to_refresh i n).0

module _ {S V : Type 0} (d : Driver S) where
  auto_commit-Keeps :
      (enabled : Bool) (i : Inside S V) (r : Result StorageError (Unit {0}))
      → Keeps i (auto_commit d enabled i r).0
  unfolding auto_commit guard_commit
  auto_commit-Keeps enabled i (raise e) = (refl, refl)
  auto_commit-Keeps enabled i (ok u) =
      let frame = commit-Frame d i.guard.connection in ground (arith, frame.0, frame.1)

  run_accessor-Keeps :
      (b : Bool) (apply : Inside S V → Inside S V × Result Error ResultCode) (enabled : Bool)
      (i : Inside S V)
      → ((j : Inside S V) → Keeps j (apply j).0)
      → Keeps i (run_accessor d b apply enabled i).0
  unfolding run_accessor
  run_accessor-Keeps b apply enabled i h =
      with_statement-Keeps d b i (λ e. raise (engine e))
        (λ i1. let (i2, r) = apply i1 in auto_commit d enabled i2 (check r tt))
        (λ j.
          Keeps_trans j (apply j).0 (auto_commit d enabled (apply j).0 (check (apply j).1 tt)).0
            (h j) (auto_commit-Keeps enabled (apply j).0 (check (apply j).1 tt)))

module _ {S V K : Type 0} ⦃key : Key K⦄ where
  load_created-Keeps :
      (loader : Loader S V K) (s : Storage K) (i : Inside S V) (created : Option V)
      → IsLoader loader
      → Keeps i (load_created loader s i created).0
  unfolding load_created
  load_created-Keeps loader s i none h = (refl, refl)
  load_created-Keeps loader s i (some object) h =
      h.apply (record i { objects = i.objects ++ object ∷ [] }) (length i.objects)

  refresh-Keeps :
      (loader : Loader S V K) (i : Inside S V) (handle : ℕ) (due : Result Error Bool)
      → IsLoader loader
      → Keeps i (refresh loader i handle due).0
  unfolding refresh
  refresh-Keeps loader i handle (raise e) h = (refl, refl)
  refresh-Keeps loader i handle (ok false) h = (refl, refl)
  refresh-Keeps loader i handle (ok true) h = h.apply i handle

  load_found-Keeps :
      (loader : Loader S V K) (s : Storage K) (vv : Option (K × ℕ)) (i : Inside S V)
      → IsLoader loader
      → Keeps i (load_found loader s vv i).0
  unfolding load_found load_fault load_hit
  load_found-Keeps loader s none i h =
      load_created-Keeps loader (record s { fault_counter = count s.fault_counter }) i
        (loader.create_object loader.primary_key) h
  load_found-Keeps loader s (some pair) i h =
      let out = loader.has_to_refresh i pair.1 in
      Keeps_trans i out.0 (refresh loader out.0 out.1 out.2).0 (h.refresh i pair.1)
        (refresh-Keeps loader out.0 out.1 out.2 h)

  -- A load, a save or an erase on a free connection leaves it free again, whatever it returns or
  -- throws, unless the connection's lock fails to begin a transaction; the client's loader, recorder
  -- and eraser are to leave the connection's lock alone.
  pub calls-IsFree :
      (d : Driver S) (w : World S V) (loader : Loader S V K) (recorder : Recorder S V)
      (eraser : Eraser S V K) (s : Storage K)
      → IsLoader loader
      → ((i : Inside S V) → Keeps i (recorder.apply i).0)
      → ((i : Inside S V) → Keeps i (eraser.apply i).0)
      → IsFree w.connection
      → (lock d w.connection).1 ≢ raise begin_failed
      → IsFree (load d w loader s).0.connection
        × IsFree (save d w recorder).0.connection
        × IsFree (erase d w eraser s).0.connection
  unfolding load save save_inside erase erase_inside
  calls-IsFree d w loader recorder eraser s l r e f n =
      let (c, vv) = find_pair loader.primary_key s.cache in
      let s1 : Storage K = record s { cache = c } in
      (
        with_connection-IsFree d w (λ x. (s1, raise (engine x)))
            (λ i.
              with_statement d w.statement_locked i (λ x. (s1, raise (engine x)))
                (load_found loader s1 vv))
            (λ i.
              with_statement-Keeps d w.statement_locked i (λ x. (s1, raise (engine x)))
                (load_found loader s1 vv) (λ j. load_found-Keeps loader s1 vv j l))
            f n,
        with_connection-IsFree d w (λ x. raise (engine x))
            (save_inside d w.statement_locked recorder)
            (λ i.
              run_accessor-Keeps d w.statement_locked recorder.apply recorder.has_auto_commit i r)
            f n,
        with_connection-IsFree d w (λ x. (s, raise (engine x)))
            (erase_inside d w.statement_locked eraser s)
            (λ i. run_accessor-Keeps d w.statement_locked eraser.apply eraser.has_auto_commit i e) f
            n,
      )
