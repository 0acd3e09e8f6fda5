-- ===== src/Dbms/Connection.antt =====
-- dbms::Connection: source/src/dbms/Connection.cc and source/include/coffee/dbms/Connection.hpp.
-- The counters are unbounded numbers. `m_maxCommitPending` is read by `> 0` alone, so a negative
-- limit is the limit 0 of the model. `locked` is `m_mutex`, which is not recursive: a call that
-- would wait on it raises `blocked`. `isPrepared` of a statement is its flag; that it is virtual, and
-- the SQLite statement asks its handle instead, is left out.
pub mod Frame
pub mod Rollback
pub mod Batches
pub mod Locking
use coffee.Base.{
  ℕ, suc, ◌+◌, ◌-◌, ◌≤◌, ◌<◌, Bool, true, false, ◌&&◌, not, List, [], ◌∷◌, Result, ok, raise,
  if◌then◌else◌, ltb, ◌==◌, leb,
}
use coffee.Dbms.Driver.{
  Error, rollback_required, lost_connection, statement_failed, not_available, begin_failed, blocked,
  engine_error, Driver, ResultCode, successful, lost,
}
use coffee.Dbms.Statement.{Statement, ActionOnError, ignore, rollback, requires_commit, prepare}
use coffee.Dbms.Statement

pub record Connection (S : Type 0) : Type 0 where
  pub engine : S
  pub locked : Bool
  pub locking_counter : ℕ
  pub commit_pending : ℕ
  pub rollback_pending : Bool
  pub max_commit_pending : ℕ
  pub accessing_counter : ℕ

-- What a call leaves behind: the connection, the statement, and a value or an exception.
pub record Outcome (S A : Type 0) : Type 0 where
  pub connection : Connection S
  pub statement : Statement
  pub result : Result Error A

module _ {S : Type 0} where
  unfoldable pub reach_max_commit_pending : Connection S → Bool
  reach_max_commit_pending c =
      ltb 0 c.max_commit_pending && leb c.max_commit_pending c.commit_pending

  unfoldable pub set_max_commit_pending : Connection S → ℕ → Connection S × ℕ
  set_max_commit_pending c limit = (record c { max_commit_pending = limit }, c.max_commit_pending)

  module _ (d : Driver S) where
    -- The end of `commit`, after `do_commit`.
    unfoldable pub committed :
        Connection S → S × Result ℕ (Unit {0}) → Connection S × Result Error (Unit {0})
    committed c (s, ok _) =
        (record c { engine = s; commit_pending = 0; rollback_pending = false }, ok tt)
    committed c (s, raise e) = (record c { engine = s }, raise (engine_error e))

    unfoldable pub commit : Connection S → Connection S × Result Error (Unit {0})
    commit c =
        if d.is_available c.engine
        then committed c (d.do_commit c.engine)
        else (c, raise not_available)

    unfoldable pub rollback_transaction : Connection S → Connection S
    rollback_transaction c = record c {
      engine = d.do_rollback c.engine;
      commit_pending = 0;
      rollback_pending = false;
    }

    unfoldable pub recovered : Connection S → S × Result ℕ (Unit {0}) → Connection S × Bool
    recovered c (s, ok _) = (record c { engine = s }, true)
    recovered c (s, raise e) = (record c { engine = d.notify_recovery_fail s }, false)

    unfoldable pub recover : Connection S → Connection S × Bool
    recover c = recovered c (d.open_connection (d.close c.engine))

    -- The tests on the result code, which raise where no interpreter is set.
    unfoldable pub count_commit : Connection S → Statement → ResultCode → Outcome S ResultCode
    count_commit c st r =
        let c1 : Connection S = record c { commit_pending = suc c.commit_pending } in
        if reach_max_commit_pending c1
        then (let (c2, done) = commit c1 in
            record {
              connection = c2;
              statement = st;
              result = elim done [ ok _ ↦ ok r | raise e ↦ raise e ];
            })
        else record { connection = c1; statement = st; result = ok r }

    unfoldable pub fail_statement :
        Connection S → Statement → ResultCode → ActionOnError → Outcome S ResultCode
    fail_statement c st r rollback = record {
      connection = record c { rollback_pending = true };
      statement = st;
      result = raise statement_failed;
    }
    fail_statement c st r ignore = record { connection = c; statement = st; result = ok r }

    unfoldable pub judge :
        Connection S → Statement → ResultCode → Result Error Bool → Outcome S ResultCode
    judge c st r (raise e) = record { connection = c; statement = st; result = raise e }
    judge c st r (ok true) =
        if requires_commit st
        then count_commit c st r
        else record { connection = c; statement = st; result = ok r }
    judge c st r (ok false) =
        if requires_commit st
        then fail_statement c st r st.action_on_error
        else record { connection = c; statement = st; result = ok r }

    unfoldable pub check_lost :
        Connection S → Statement → ResultCode → Result Error Bool → Outcome S ResultCode
    check_lost c st r (raise e) = record { connection = c; statement = st; result = raise e }
    check_lost c st r (ok true) = record {
      connection = (recover c).0;
      statement = st;
      result = raise lost_connection;
    }
    check_lost c st r (ok false) = judge c st r (successful r)

    unfoldable pub executed :
        Connection S → Statement → S × Result ℕ ResultCode → Outcome S ResultCode
    executed c st (s, raise e) = record {
      connection = record c { engine = s };
      statement = st;
      result = raise (engine_error e);
    }
    executed c st (s, ok r) = check_lost (record c { engine = s }) st r (lost r)

    unfoldable pub prepared :
        Connection S → Statement → S × Result ℕ (Unit {0}) → Outcome S ResultCode
    prepared c st (s, raise e) = record {
      connection = record c { engine = s };
      statement = st;
      result = raise (engine_error e);
    }
    prepared c st (s, ok _) =
        let st' : Statement = record st { is_prepared = true } in
        executed (record c { engine = s }) st' (Statement.execute d st' s)

    unfoldable pub execute : Statement → Connection S → Outcome S ResultCode
    execute st c =
        if requires_commit st && c.rollback_pending
        then record { connection = c; statement = st; result = raise rollback_required }
        else if st.is_prepared
        then executed c st (Statement.execute d st c.engine)
        else prepared c st (prepare d st c.engine)

    -- The inner part of `lock`, once the mutex is taken.
    unfoldable pub began : Connection S → S × Result ℕ Bool → Connection S × Result Error (Unit {0})
    began c (s, ok true) = (record c { engine = s; commit_pending = 1 }, ok tt)
    began c (s, ok false) = (record c { engine = s }, ok tt)
    began c (s, raise e) = (record c { engine = s }, raise begin_failed)

    unfoldable pub enter : Connection S → Connection S × Result Error (Unit {0})
    enter c =
        let n = c.locking_counter in
        let c1 : Connection S = record c { locked = true; locking_counter = suc n } in
        if n == 0
        then (let c2 : Connection S = record c1 {
          accessing_counter = suc c.accessing_counter;
          commit_pending = 0;
          rollback_pending = false;
        } in
            began c2 (d.do_begin_transaction c2.engine))
        else (c1, ok tt)

    unfoldable pub take_mutex : Connection S → Connection S × Result Error (Unit {0})
    take_mutex c = if c.locked then (c, raise blocked) else enter c

    unfoldable pub lock : Connection S → Connection S × Result Error (Unit {0})
    lock c =
        if d.is_available c.engine
        then take_mutex c
        else (let (c1, done) = recover c in
            if done then take_mutex c1 else (c1, raise not_available))

    -- The exception of a `commit` that fails is written to the log and dropped.
    unfoldable pub finish : Connection S → Connection S
    finish c =
        if c.rollback_pending
        then rollback_transaction c
        else if ltb 0 c.commit_pending
        then (commit c).0
        else c

    unfoldable pub unlock : Connection S → Connection S
    unlock c =
        let c1 : Connection S =
          if leb c.locking_counter 1
          then finish (record c { locking_counter = 0 })
          else record c { locking_counter = c.locking_counter - 1 } in
        record c1 { locked = false }

    -- A client that runs statements one after another and drops their results and exceptions.
    unfoldable pub execute_all : List Statement → Connection S → Connection S
    execute_all [] c = c
    execute_all (st ∷ sts) c = execute_all sts (execute st c).connection
