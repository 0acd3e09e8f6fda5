-- ===== src/Dbms/Guard.antt =====
-- dbms::GuardConnection and dbms::GuardStatement: source/src/dbms/GuardConnection.cc and
-- source/src/dbms/GuardStatement.cc. A constructor is a function that may raise, a destructor one
-- that does not. A statement's mutex is the Boolean `statement_locked`.
use coffee.Base.{ℕ, suc, ◌-◌, Bool, Result, ok, raise, if◌then◌else◌}
use coffee.Dbms.Driver.{Error, blocked, not_available, Driver, ResultCode}
use coffee.Dbms.Statement.{Statement}
use coffee.Dbms.Connection.{Connection, lock, unlock, commit, execute, set_max_commit_pending}

pub record Guard (S : Type 0) : Type 0 where
  pub connection : Connection S
  pub count_linked_statement : ℕ

module _ {S : Type 0} (d : Driver S) where
  -- GuardConnection::GuardConnection. Where the lock raises there is no guard, and the destructor
  -- does not run.
  unfoldable pub guard_connection : Connection S → Connection S × Result Error (Guard S)
  guard_connection c =
      let (c', r) = lock d c in
      elim r [
        | ok _ ↦ (c', ok (record { connection = c'; count_linked_statement = 0 }))
        | raise e ↦ (c', raise e)
      ]

  unfoldable pub free_guard_connection : Guard S → Connection S
  free_guard_connection g = unlock d g.connection

  -- GuardStatement::GuardStatement, given whether another thread holds the statement.
  unfoldable pub guard_statement : Guard S → Bool → Guard S × Result Error (Unit {0})
  guard_statement g statement_locked =
      if d.is_available g.connection.engine
      then (let g' : Guard S = record g { count_linked_statement = suc g.count_linked_statement } in
          if statement_locked then (g', raise blocked) else (g', ok tt))
      else (g, raise not_available)

  unfoldable pub free_guard_statement : Guard S → Guard S
  free_guard_statement g = record g { count_linked_statement = g.count_linked_statement - 1 }

  unfoldable pub guard_execute : Guard S → Statement → Guard S × Statement × Result Error ResultCode
  guard_execute g st =
      let o = execute d st g.connection in
      (record g { connection = o.connection }, o.statement, o.result)

  unfoldable pub guard_commit : Guard S → Guard S × Result Error (Unit {0})
  guard_commit g = let (c, r) = commit d g.connection in (record g { connection = c }, r)

  unfoldable pub guard_set_max_commit_pending : Guard S → ℕ → Guard S × ℕ
  guard_set_max_commit_pending g limit =
      let (c, old) = set_max_commit_pending g.connection limit in (record g { connection = c }, old)
