-- ===== src/Persistence/Storage.antt =====
-- source/src/persistence/Storage.cc, with Accessor, Loader, Recorder and Eraser of
-- source/include/coffee/persistence.
--
-- An object is shared: its handle is its position in the list of all objects, and the cache holds
-- handles. What a client's loader, recorder or eraser does with the guarded statement and the
-- objects, and how a class creates an object, are fields of `Loader`, `Recorder` and `Eraser`. The
-- log and the texts of exceptions are left out.
use coffee.Base.{
  ℕ, suc, ◌%◌, ◌^◌, Bool, true, false, Option, none, some, Result, ok, raise, List, [], ◌∷◌, ◌++◌,
  length, Key, if◌then◌else◌,
}
use coffee.Basis.Cache.{Cache, find_pair, set_pair, erase_key}
use coffee.Dbms.Driver.{Error, Driver, ResultCode, successful}
use coffee.Dbms.Statement.{Statement}
use coffee.Dbms.Connection.{Connection}
use coffee.Dbms.Guard.{
  Guard, guard_connection, free_guard_connection, guard_statement, free_guard_statement,
  guard_commit,
}

-- `no_match` is the exception of `Class::createObject`, `database` the one for a result code that is
-- not successful, and `no_front` the undefined behaviour of the cache's `set`.
pub data StorageError : Type 0 where
  engine : Error → StorageError
  database : ResultCode → StorageError
  no_match no_front : StorageError

pub record Storage (K : Type 0) : Type 0 where
  pub cache : Cache K ℕ
  pub hit_counter : ℕ
  pub fault_counter : ℕ

-- What a call works on outside the guards, and inside.
pub record World (S V : Type 0) : Type 0 where
  pub connection : Connection S
  pub statement : Statement
  pub statement_locked : Bool
  pub objects : List V

pub record Inside (S V : Type 0) : Type 0 where
  pub guard : Guard S
  pub statement : Statement
  pub objects : List V

pub record Loader (S V K : Type 0) : Type 0 where
  pub primary_key : K
  pub create_object : K → Option V
  pub apply : Inside S V → ℕ → Inside S V × ℕ × Result Error ResultCode
  pub has_to_refresh : Inside S V → ℕ → Inside S V × ℕ × Result Error Bool

pub record Recorder (S V : Type 0) : Type 0 where
  pub has_auto_commit : Bool
  pub apply : Inside S V → Inside S V × Result Error ResultCode

pub record Eraser (S V K : Type 0) : Type 0 where
  pub primary_key : K
  pub has_auto_commit : Bool
  pub apply : Inside S V → Inside S V × Result Error ResultCode

-- The counters are `unsigned int`.
unfoldable pub count : ℕ → ℕ
count n = suc n % 2 ^ 32

module _ {A : Type 0} where
  -- The value, if the result code is there and successful.
  unfoldable pub check : Result Error ResultCode → A → Result StorageError A
  check (raise e) a = raise (engine e)
  check (ok r) a = elim (successful r) [
    | raise e ↦ raise (engine e)
    | ok true ↦ ok a
    | ok false ↦ raise (database r)
  ]

module _ {S V A : Type 0} (d : Driver S) where
  -- A block with a GuardConnection: `failed` is what is left if its constructor throws.
  unfoldable pub with_connection :
      World S V → (Error → A) → (Inside S V → Inside S V × A) → World S V × A
  with_connection w failed body =
      let (c, entered) = guard_connection d w.connection in
      elim entered [
        | raise e ↦ (record w { connection = c }, failed e)
        | ok g ↦
            let (i, result) =
              body (record { guard = g; statement = w.statement; objects = w.objects }) in
            (
              record w {
                connection = free_guard_connection d i.guard;
                statement = i.statement;
                objects = i.objects;
              },
              result,
            )
      ]

  -- A block with a GuardStatement.
  unfoldable pub with_statement :
      Bool → Inside S V → (Error → A) → (Inside S V → Inside S V × A) → Inside S V × A
  with_statement statement_locked i failed body =
      let (g, entered) = guard_statement d i.guard statement_locked in
      elim entered [
        | raise e ↦ (record i { guard = g }, failed e)
        | ok _ ↦
            let (i1, result) = body (record i { guard = g }) in
            (record i1 { guard = free_guard_statement d i1.guard }, result)
      ]

module _ {S V : Type 0} (d : Driver S) where
  unfoldable pub auto_commit :
      Bool
      → Inside S V
      → Result StorageError (Unit {0})
      → Inside S V × Result StorageError (Unit {0})
  auto_commit enabled i (raise e) = (i, raise e)
  auto_commit enabled i (ok _) =
      if enabled
      then (let (g, done) = guard_commit d i.guard in
          (record i { guard = g }, elim done [ raise e ↦ raise (engine e) | ok _ ↦ ok tt ]))
      else (i, ok tt)

module _ {K : Type 0} ⦃key : Key K⦄ where
  -- The cache keeps the loaded object.
  unfoldable pub keep :
      K → Storage K → ℕ → Result StorageError (Unit {0}) → Storage K × Result StorageError ℕ
  keep k s handle (raise e) = (s, raise e)
  keep k s handle (ok _) = elim (set_pair k handle s.cache) [
    | none ↦ (s, raise no_front)
    | some c ↦ (record s { cache = c }, ok handle)
  ]

  unfoldable pub forget : K → Storage K → Storage K
  forget k s =
      let (c, erased) = erase_key k s.cache in
      if erased
      then record s { cache = c; hit_counter = count s.hit_counter }
      else record s { cache = c; fault_counter = count s.fault_counter }

module _ {S V : Type 0} (d : Driver S) where
  -- The part of `save` and `erase` that both share: the accessor runs, and its statement is committed.
  unfoldable pub run_accessor :
      Bool
      → (Inside S V → Inside S V × Result Error ResultCode)
      → Bool
      → Inside S V
      → Inside S V × Result StorageError (Unit {0})
  run_accessor statement_locked apply has_auto_commit i =
      with_statement d statement_locked i (λ e. raise (engine e))
        (λ i1. let (i2, r) = apply i1 in auto_commit d has_auto_commit i2 (check r tt))

  unfoldable pub save_inside :
      Bool → Recorder S V → Inside S V → Inside S V × Result StorageError (Unit {0})
  save_inside statement_locked recorder i =
      run_accessor statement_locked recorder.apply recorder.has_auto_commit i

  unfoldable pub save : World S V → Recorder S V → World S V × Result StorageError (Unit {0})
  save w recorder =
      with_connection d w (λ e. raise (engine e)) (save_inside w.statement_locked recorder)

module _ {S V K : Type 0} ⦃key : Key K⦄ where
  -- The object of a key that is not in the cache, as its class creates it, is loaded.
  unfoldable pub load_created :
      Loader S V K
      → Storage K
      → Inside S V
      → Option V
      → Inside S V × (Storage K × Result StorageError ℕ)
  load_created loader s i none = (i, (s, raise no_match))
  load_created loader s i (some object) =
      let (i1, handle, r) =
        loader.apply (record i { objects = i.objects ++ object ∷ [] }) (length i.objects) in
      (i1, keep loader.primary_key s handle (check r tt))

  unfoldable pub load_fault :
      Loader S V K → Storage K → Inside S V → Inside S V × (Storage K × Result StorageError ℕ)
  load_fault loader s i =
      load_created loader (record s { fault_counter = count s.fault_counter }) i
        (loader.create_object loader.primary_key)

  unfoldable pub refresh :
      Loader S V K → Inside S V → ℕ → Result Error Bool → Inside S V × Result StorageError ℕ
  refresh loader i handle (raise e) = (i, raise (engine e))
  refresh loader i handle (ok false) = (i, ok handle)
  refresh loader i handle (ok true) =
      let (i1, handle1, r) = loader.apply i handle in (i1, check r handle1)

  unfoldable pub load_hit :
      Loader S V K → Storage K → ℕ → Inside S V → Inside S V × (Storage K × Result StorageError ℕ)
  load_hit loader s handle i =
      let s1 : Storage K = record s { hit_counter = count s.hit_counter } in
      let (i1, handle1, due) = loader.has_to_refresh i handle in
      let (i2, result) = refresh loader i1 handle1 due in (i2, (s1, result))

  unfoldable pub load_found :
      Loader S V K
      → Storage K
      → Option (K × ℕ)
      → Inside S V
      → Inside S V × (Storage K × Result StorageError ℕ)
  load_found loader s none i = load_fault loader s i
  load_found loader s (some pair) i = load_hit loader s pair.1 i

module _ {S V K : Type 0} (d : Driver S) ⦃key : Key K⦄ where
  unfoldable pub load :
      World S V → Loader S V K → Storage K → World S V × (Storage K × Result StorageError ℕ)
  load w loader s =
      let (c, vv) = find_pair loader.primary_key s.cache in
      let s1 : Storage K = record s { cache = c } in
      with_connection d w (λ e. (s1, raise (engine e)))
        (λ i.
          with_statement d w.statement_locked i (λ e. (s1, raise (engine e)))
            (load_found loader s1 vv))

  unfoldable pub erase_inside :
      Bool
      → Eraser S V K
      → Storage K
      → Inside S V
      → Inside S V × (Storage K × Result StorageError (Unit {0}))
  erase_inside statement_locked eraser s i =
      let (i1, result) = run_accessor d statement_locked eraser.apply eraser.has_auto_commit i in
      (i1, (forget eraser.primary_key s, result))

  unfoldable pub erase :
      World S V
      → Eraser S V K
      → Storage K
      → World S V × (Storage K × Result StorageError (Unit {0}))
  erase w eraser s =
      with_connection d w (λ e. (s, raise (engine e))) (erase_inside w.statement_locked eraser s)
