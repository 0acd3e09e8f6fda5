-- ===== src/Dbms/Tests.antt =====
-- Runs and instances of the theorems of Dbms, over a small engine that counts what it is sent.
use coffee.Base.{
  ℕ, suc, ◌≡◌, refl, pos, negsuc, Bool, true, false, [], ◌∷◌, some, ok, raise, arith, ap, ◌≢◌,
  if◌then◌else◌, ◌==◌,
}
use coffee.Dbms.Driver.{Interpreter, ResultCode, Driver, successful, lost}
use coffee.Dbms.Statement.{Statement, ActionOnError, requires_commit, prepare, for_binders}
use coffee.Dbms.Statement
use coffee.Dbms.Connection
use coffee.Dbms.Connection.{Connection}
use coffee.Dbms.Connection.Locking
use coffee.Dbms.Connection.Locking.{IsFree}
use coffee.Dbms.Connection.Batches
use coffee.Dbms.Connection.Batches.{Commits, Succeeds, Batched}
use coffee.Dbms.Connection.Rollback

record Memory : Type 0 where
  up : Bool
  begins : Bool
  written : ℕ
  commits : ℕ
  rollbacks : ℕ

abbrev codes : Interpreter
codes = record {
  not_found = λ c. false;
  successful = λ c. elim c [ pos n ↦ n == 0 | negsuc n ↦ false ];
  locked = λ c. false;
  lost_connection = λ c. false;
}

abbrev code : ℕ → ResultCode
code n = record { interpreter = some codes; numeric_code = pos n }

-- Statement 0 writes; any other fails with its handle for a code.
abbrev memory : Driver Memory
memory = record {
  is_available = λ s. s.up;
  open_connection = λ s. (record s { up = true }, ok tt);
  close = λ s. record s { up = false };
  do_begin_transaction = λ s. (s, if s.begins then ok true else raise 1);
  do_commit = λ s. (record s { commits = suc s.commits }, ok tt);
  do_rollback = λ s. record s { rollbacks = suc s.rollbacks };
  notify_recovery_fail = λ s. s;
  do_prepare = λ h s. (s, ok tt);
  do_execute = λ h s. (record s { written = suc s.written }, ok (code h));
  do_fetch = λ h s. (s, ok false);
  prepare_binder = λ b p s. (s, ok tt);
  do_encode = λ b p s. (s, ok tt);
  do_decode = λ b p s. (s, ok tt);
}

-- The same engine, always up.
abbrev always : Driver Memory
always = record memory { is_available = λ s. true }

abbrev fresh : Memory
fresh = record { up = true; begins = true; written = 0; commits = 0; rollbacks = 0 }

abbrev idle : Connection Memory
idle = record {
  engine = fresh;
  locked = false;
  locking_counter = 0;
  commit_pending = 0;
  rollback_pending = false;
  max_commit_pending = 0;
  accessing_counter = 0;
}

abbrev write : Statement
write = record {
  handle = 0;
  action_on_error = ActionOnError.rollback;
  requires_commit_flag = false;
  is_prepared = false;
  inputs = 1 ∷ 2 ∷ [];
  outputs = [];
}

abbrev broken : Statement
broken = record write { handle = 7 }

abbrev held : Connection Memory
held = record idle { locked = true; locking_counter = 1; commit_pending = 1 }

program : Unit {0}
unfolding Connection.lock Connection.take_mutex Connection.enter Connection.began Connection.execute
    Connection.prepared Connection.executed Connection.check_lost Connection.judge
    Connection.count_commit Connection.fail_statement Connection.reach_max_commit_pending
    Connection.unlock Connection.finish Connection.commit Connection.committed
    Connection.rollback_transaction Connection.execute_all Statement.requires_commit
    Statement.prepare Statement.execute Statement.for_binders successful lost
program = tt

lock-idle : (Connection.lock memory idle).1 ≡ ok tt
unfolding program
lock-idle = refl

transaction :
    (Connection.unlock memory
      (Connection.execute_all memory (write ∷ write ∷ []) (Connection.lock memory idle).0)).engine
    ≡ record fresh { written = 2; commits = 1 }
unfolding program
transaction = refl

failed_statement_rolls_back_example :
    (Connection.unlock memory (Connection.execute_all memory (broken ∷ write ∷ []) held)).engine
    ≡ record fresh { written = 1; rollbacks = 1 }
unfolding program
failed_statement_rolls_back_example =
    ap (λ (c : Connection Memory). c.engine)
      (Rollback.failed_statement_rolls_back memory broken (write ∷ []) held refl (omega arith))

idle-IsFree : IsFree idle
idle-IsFree = record { mutex = refl; count = refl }

guard-IsFree_example : IsFree (
    Connection.unlock memory
      (Connection.execute_all memory (broken ∷ write ∷ []) (Connection.lock memory idle).0))
unfolding program
guard-IsFree_example = Locking.guard-IsFree memory (broken ∷ write ∷ []) idle idle-IsFree refl

abbrev refusing : Connection Memory
refusing = record idle { engine = record fresh { begins = false } }

lock_begin_failed_blocks_example :
    (Connection.lock memory (Locking.retry memory 3 (Connection.lock memory refusing).0)).1 ≢ ok tt
unfolding program
lock_begin_failed_blocks_example = Locking.lock_begin_failed_blocks memory 3 refusing refl

always-Commits : Commits always (λ s. s.commits)
always-Commits = record { available = λ s. refl; succeeds = λ s. refl; counted = λ s. refl }

write-Succeeds : Succeeds always (λ s. s.commits) write
unfolding program
write-Succeeds = record {
  writes = refl;
  prepares = λ s. refl;
  prepare_commits = λ s. refl;
  code = code 0;
  executes = λ s p. refl;
  execute_commits = λ s p. refl;
  success = refl;
  connected = refl;
}

abbrev limited : Connection Memory
limited = record held { commit_pending = 0; max_commit_pending = 2 }

execute_all-Batched_example :
    Batched always
      (λ s. s.commits)
      always-Commits
      3
      limited
      (Connection.execute_all always (write ∷ write ∷ write ∷ []) limited)
execute_all-Batched_example =
    Batches.execute_all-Batched always (λ s. s.commits) always-Commits (write ∷ write ∷ write ∷ [])
      limited (write-Succeeds, (write-Succeeds, (write-Succeeds, tt))) refl (omega arith)
