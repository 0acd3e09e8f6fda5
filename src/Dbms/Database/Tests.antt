-- ===== src/Dbms/Database/Tests.antt =====
-- Runs and instances of the theorems on the database.
use coffee.Base.{
  ℕ, suc, true, false, none, some, ok, raise, [], ◌∷◌, number_key, ◌==◌, if◌then◌else◌, ◌≡◌, ◌≢◌,
  ◌↔◌, refl, arith,
}
use coffee.Dbms.Driver.{Driver}
use coffee.Dbms.Connection.{Connection}
use coffee.Dbms.Database.{
  Database, Allocator, none_available, search, open_one, open_all, do_initialize, keep_opened,
  register, create_new, create_connection, find_connection,
}
use coffee.Dbms.Database.Registers.{DistinctNames, IsDatabase, Created, create_connection-Created}
use coffee.Dbms.Database.Opening.{AllFail, do_initialize_iff}

program : Unit {0}
unfolding search open_one open_all do_initialize keep_opened register create_new create_connection
    find_connection DistinctNames
program = tt

-- Opening works from the second attempt on.
abbrev lazy : Driver ℕ
lazy = record {
  is_available = λ s. true;
  open_connection = λ s. (suc s, if s == 0 then raise 7 else ok tt);
  close = λ s. s;
  do_begin_transaction = λ s. (s, ok false);
  do_commit = λ s. (s, ok tt);
  do_rollback = λ s. s;
  notify_recovery_fail = λ s. s;
  do_prepare = λ h s. (s, ok tt);
  do_execute = λ h s. (s, raise 0);
  do_fetch = λ h s. (s, ok false);
  prepare_binder = λ b p s. (s, ok tt);
  do_encode = λ b p s. (s, ok tt);
  do_decode = λ b p s. (s, ok tt);
}

abbrev connection : ℕ → Connection ℕ
connection s = record {
  engine = s;
  locked = false;
  locking_counter = 0;
  commit_pending = 0;
  rollback_pending = false;
  max_commit_pending = 0;
  accessing_counter = 0;
}

abbrev allocator : Allocator ℕ ℕ ℕ
allocator = record {
  allocate_connection = λ name. some (connection name);
  allocate_statement = λ name expression. none;
  translator = none;
}

abbrev two : Database ℕ ℕ
two = record {
  running = true;
  connections = (5, connection 0) ∷ (6, connection 0) ∷ [];
  statements = [];
}

initialize-two : (do_initialize lazy two).1 ≡ raise none_available
unfolding program
initialize-two = refl

do_initialize_iff_example :
    ((do_initialize lazy two).1 ≡ raise none_available)
    ↔ ((two.connections ≢ []) × AllFail lazy two.connections)
do_initialize_iff_example = do_initialize_iff lazy two

two-IsDatabase : IsDatabase two
unfolding program
two-IsDatabase = record { connections = (refl, (refl, tt)); statements = tt; limit = omega arith }

-- A connection that does not open is not kept.
create-zero : (create_connection lazy allocator 0 two).0 ≡ two
unfolding program
create-zero = refl

create_connection-Created_example :
    IsDatabase (create_connection lazy allocator 7 two).0
    × Created 7 two
        (create_connection lazy allocator 7 two).0
        (create_connection lazy allocator 7 two).1
create_connection-Created_example = create_connection-Created lazy allocator 7 two two-IsDatabase
