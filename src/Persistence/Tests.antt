-- ===== src/Persistence/Tests.antt =====
-- Runs and instances of the theorems on the storage, over an engine that counts executions.
use coffee.Base.{
  ℕ, suc, ◌+◌, ◌≡◌, ◌≢◌, ◌⊎◌, refl, pos, negsuc, true, false, [], some, ok, raise, arith,
  number_key, find, assign, ◌==◌, Result,
}
use coffee.Basis.Cache.{
  kkvv, unlink, last_value, is_last, push_back, update_access, find_pair, erase_key, drop_oldest,
  set_value, set_pair,
}
use coffee.Basis.Order.{contents, DistinctNodes}
use coffee.Basis.Lru.{get}
use coffee.Basis.Sizes.{DistinctKeys}
use coffee.Dbms.Driver.{Error, begin_failed, Interpreter, ResultCode, Driver, successful, lost}
use coffee.Dbms.Statement.{Statement, ActionOnError, requires_commit, for_binders}
use coffee.Dbms.Statement
use coffee.Dbms.Connection.{Connection, lock, take_mutex, enter, began}
use coffee.Dbms.Connection
use coffee.Dbms.Connection.Frame.{execute-Frame}
use coffee.Dbms.Connection.Locking.{IsFree}
use coffee.Dbms.Guard.{
  guard_connection, free_guard_connection, guard_statement, free_guard_statement, guard_commit,
  guard_execute, Guard,
}
use coffee.Persistence.Storage.{
  Storage, StorageError, World, Inside, Loader, Recorder, Eraser, engine, load, save, erase, count,
  check, with_connection, with_statement, auto_commit, keep, forget, run_accessor, save_inside,
  load_created, load_fault, refresh, load_hit, load_found, erase_inside,
}
use coffee.Persistence.Guards.{opened}
use coffee.Persistence.Outcomes.{IsStorage, Loaded}
use coffee.Persistence.Caching.{load-Loaded}
use coffee.Persistence.Repeated.{cached, FromCache, load_again}
use coffee.Persistence.Erasing.{Erased, erase-Erased}
use coffee.Persistence.Releasing.{Keeps, IsLoader, calls-IsFree}

program : Unit {0}
unfolding find assign kkvv unlink last_value is_last push_back update_access find_pair erase_key
    drop_oldest set_value set_pair successful lost requires_commit for_binders Statement.execute
    Connection.execute Connection.executed Connection.check_lost Connection.judge
    Connection.count_commit Connection.reach_max_commit_pending Connection.commit
    Connection.committed Connection.finish Connection.unlock lock take_mutex enter began
    guard_connection free_guard_connection guard_statement free_guard_statement guard_commit
    guard_execute load save erase count check with_connection with_statement auto_commit keep forget
    run_accessor save_inside load_created load_fault refresh load_hit load_found erase_inside
program = tt

abbrev codes : Interpreter
codes = record {
  not_found = λ c. false;
  successful = λ c. elim c [ pos n ↦ n == 0 | negsuc n ↦ false ];
  locked = λ c. false;
  lost_connection = λ c. false;
}

-- The state is the number of executions; the result code is the statement's handle.
abbrev counting : Driver ℕ
counting = record {
  is_available = λ s. true;
  open_connection = λ s. (s, ok tt);
  close = λ s. s;
  do_begin_transaction = λ s. (s, ok true);
  do_commit = λ s. (s, ok tt);
  do_rollback = λ s. s;
  notify_recovery_fail = λ s. s;
  do_prepare = λ h s. (s, ok tt);
  do_execute = λ h s. (suc s, ok (record { interpreter = some codes; numeric_code = pos h }));
  do_fetch = λ h s. (s, ok false);
  prepare_binder = λ b p s. (s, ok tt);
  do_encode = λ b p s. (s, ok tt);
  do_decode = λ b p s. (s, ok tt);
}

abbrev world : World ℕ ℕ
world = record {
  connection = record {
    engine = 0;
    locked = false;
    locking_counter = 0;
    commit_pending = 0;
    rollback_pending = false;
    max_commit_pending = 0;
    accessing_counter = 0;
  };
  statement = record {
    handle = 0;
    action_on_error = ActionOnError.rollback;
    requires_commit_flag = false;
    is_prepared = true;
    inputs = [];
    outputs = [];
  };
  statement_locked = false;
  objects = [];
}

abbrev run : Inside ℕ ℕ → Inside ℕ ℕ × Result Error ResultCode
run i =
    let (g, st, r) = guard_execute counting i.guard i.statement in
    (record i { guard = g; statement = st }, r)

abbrev loader : ℕ → Loader ℕ ℕ ℕ
loader k = record {
  primary_key = k;
  create_object = λ key. some (key + 100);
  apply = λ i n. (let (i1, r) = run i in (i1, n, r));
  has_to_refresh = λ i n. (i, n, ok false);
}

abbrev recorder : Recorder ℕ ℕ
recorder = record { has_auto_commit = true; apply = run }

abbrev eraser : Eraser ℕ ℕ ℕ
eraser = record { primary_key = 5; has_auto_commit = true; apply = run }

abbrev empty : Storage ℕ
empty = record {
  cache = record { max_size = 2; values = []; quick_access = []; next_node = 0 };
  hit_counter = 0;
  fault_counter = 0;
}

empty-IsStorage : IsStorage empty
unfolding find kkvv DistinctNodes DistinctKeys
empty-IsStorage = record {
  cache = record {
    links = record { linked = λ k node h. cc; older = λ node h. refl };
    owned = tt;
    nodes = tt;
    keys = tt;
    size = refl;
    bounded = omega arith;
  };
  limit = λ z. omega (arith, z);
}

run-Keeps : (i : Inside ℕ ℕ) → Keeps i (run i).0
unfolding guard_execute
run-Keeps i =
    let frame = execute-Frame counting i.statement i.guard.connection in (frame.0, frame.1)

loader-IsLoader : IsLoader (loader 5)
loader-IsLoader = record { apply = λ i n. run-Keeps i; refresh = λ i n. (refl, refl) }

load-Loaded_example :
    Loaded
      (loader 5)
      counting
      world
      empty
      (load counting world (loader 5) empty).1.0
      (load counting world (loader 5) empty).1.1
load-Loaded_example = load-Loaded counting world (loader 5) empty empty-IsStorage

-- The first load creates the object 0, the second finds it.
load_twice :
    (let (w, (s, result)) = load counting world (loader 5) empty in
      (result ≡ ok 0) × ((load counting w (loader 5) s).1.1 ≡ ok 0))
unfolding program
load_twice = (refl, refl)

abbrev loaded : World ℕ ℕ × (Storage ℕ × Result StorageError ℕ)
loaded = load counting world (loader 5) empty

load_again_example :
    FromCache counting loaded.0
      (loader 5)
      0
      loaded.1.0
      (load counting loaded.0 (loader 5) loaded.1.0).1.0
      (load counting loaded.0 (loader 5) loaded.1.0).1.1
unfolding cached get contents
load_again_example =
    load_again counting world loaded.0 (loader 5) (loader 5) empty 0 empty-IsStorage load_twice.0
      refl

-- The object of the key 5 is in the cache.
erase-Erased_example :
    (let (s', result) = (erase counting loaded.0 eraser loaded.1.0).1 in
      ((e : Error) × ((guard_connection counting loaded.0.connection).1 ≡ raise e)
        × (s' ≡ loaded.1.0)
        × (result ≡ raise (engine e)))
      ⊎ ((g : Guard ℕ) × ((guard_connection counting loaded.0.connection).1 ≡ ok g)
          × Erased 5 loaded.1.0 s'
          × (result
              ≡ (run_accessor counting loaded.0.statement_locked run true
                  (opened counting loaded.0 g)).1)))
erase-Erased_example = erase-Erased counting loaded.0 eraser loaded.1.0 load-Loaded_example.0

world-begins : (lock counting world.connection).1 ≢ raise begin_failed
unfolding program
world-begins h = cc

calls-IsFree_example :
    IsFree (load counting world (loader 5) empty).0.connection
    × IsFree (save counting world recorder).0.connection
    × IsFree (erase counting world eraser empty).0.connection
calls-IsFree_example =
    calls-IsFree counting world (loader 5) recorder eraser empty loader-IsLoader run-Keeps run-Keeps
      (record { mutex = refl; count = refl }) world-begins
