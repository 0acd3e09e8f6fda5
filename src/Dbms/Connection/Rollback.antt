-- ===== src/Dbms/Connection/Rollback.antt =====
-- dbms::Connection: after a critical statement fails, the transaction can only be rolled back.
use coffee.Base.{
  ℕ, ◌≤◌, ◌≢◌, List, [], ◌∷◌, Bool, ◌≡◌, true, false, ◌&&◌, Result, ok, raise, arith, ◌∙◌,
}
use coffee.Dbms.Driver.{Error, statement_failed, Driver, ResultCode, successful, lost}
use coffee.Dbms.Statement.{Statement, requires_commit, prepare}
use coffee.Dbms.Statement
use coffee.Dbms.Connection.Frame.{execute-Frame, execute_all-Frame}
use coffee.Dbms.Connection.{
  Connection, execute, recover, recovered, judge, fail_statement, check_lost, executed, prepared,
  count_commit, committed, commit, unlock, finish, rollback_transaction, execute_all, Outcome,
}

module _ {S : Type 0} (d : Driver S) where
  pub recover-rollback_pending :
      (c : Connection S) → (recover d c).0.rollback_pending ≡ c.rollback_pending
  unfolding recover recovered
  recover-rollback_pending c = ground arith

  judge-rollback_pending :
      (c : Connection S) (st : Statement) (r : ResultCode) (x : Result Error _)
      → (requires_commit st && c.rollback_pending) ≡ false
      → c.rollback_pending ≡ true
      → (judge d c st r x).connection.rollback_pending ≡ true
  unfolding judge fail_statement
  judge-rollback_pending c st r (raise e) k h = h
  judge-rollback_pending c st r (ok true) k h = ground arith
  judge-rollback_pending c st r (ok false) k h = ground arith

  check_lost-rollback_pending :
      (c : Connection S) (st : Statement) (r : ResultCode) (x : Result Error _)
      → (requires_commit st && c.rollback_pending) ≡ false
      → c.rollback_pending ≡ true
      → (check_lost d c st r x).connection.rollback_pending ≡ true
  unfolding check_lost
  check_lost-rollback_pending c st r (raise e) k h = h
  check_lost-rollback_pending c st r (ok true) k h = recover-rollback_pending c ∙ h
  check_lost-rollback_pending c st r (ok false) k h = judge-rollback_pending c st r _ k h

  executed-rollback_pending :
      (c : Connection S) (st : Statement) (x : S × Result ℕ ResultCode)
      → (requires_commit st && c.rollback_pending) ≡ false
      → c.rollback_pending ≡ true
      → (executed d c st x).connection.rollback_pending ≡ true
  unfolding executed
  executed-rollback_pending c st (s, raise e) k h = h
  executed-rollback_pending c st (s, ok r) k h =
      check_lost-rollback_pending (record c { engine = s }) st r _ k h

  prepared-rollback_pending :
      (c : Connection S) (st : Statement) (x : S × Result ℕ (Unit {0}))
      → (requires_commit st && c.rollback_pending) ≡ false
      → c.rollback_pending ≡ true
      → (prepared d c st x).connection.rollback_pending ≡ true
  unfolding prepared requires_commit
  prepared-rollback_pending c st (s, raise e) k h = h
  prepared-rollback_pending c st (s, ok _) k h =
      executed-rollback_pending (record c { engine = s }) (record st { is_prepared = true }) _ k h

  -- Once a rollback is pending, no execution clears it, whatever the statement and the engine do.
  pub execute-rollback_pending :
      (st : Statement) (c : Connection S)
      → c.rollback_pending ≡ true
      → (execute d st c).connection.rollback_pending ≡ true
  unfolding execute
  execute-rollback_pending st c h = ground (
    arith,
    executed-rollback_pending c st (Statement.execute d st c.engine),
    prepared-rollback_pending c st (prepare d st c.engine),
  )

  execute_all-rollback_pending :
      (sts : List Statement) (c : Connection S)
      → c.rollback_pending ≡ true
      → (execute_all d sts c).rollback_pending ≡ true
  unfolding execute_all
  execute_all-rollback_pending [] c h = h
  execute_all-rollback_pending (st ∷ sts) c h =
      execute_all-rollback_pending sts _ (execute-rollback_pending st c h)

  -- A statement that fails, and asks for a rollback, leaves the rollback pending.
  Pends : Outcome S ResultCode → Type 0
  Pends o = o.result ≡ raise statement_failed → o.connection.rollback_pending ≡ true

  judge-Pends :
      (c : Connection S) (st : Statement) (r : ResultCode) (x : Result Error Bool)
      → x ≢ raise statement_failed
      → Pends (judge d c st r x)
  unfolding judge fail_statement count_commit commit committed Pends
  judge-Pends c st r (raise e) n = ground arith
  judge-Pends c st r (ok true) n = ground arith
  judge-Pends c st r (ok false) n = ground arith

  successful-ne : (r : ResultCode) → successful r ≢ raise statement_failed
  unfolding successful
  successful-ne r = ground arith

  lost-ne : (r : ResultCode) → lost r ≢ raise statement_failed
  unfolding lost
  lost-ne r = ground arith

  check_lost-Pends :
      (c : Connection S) (st : Statement) (r : ResultCode) (x : Result Error Bool)
      → x ≢ raise statement_failed
      → Pends (check_lost d c st r x)
  unfolding check_lost Pends
  check_lost-Pends c st r (raise e) n = ground arith
  check_lost-Pends c st r (ok true) n = ground arith
  check_lost-Pends c st r (ok false) n = judge-Pends c st r _ (successful-ne r)

  executed-Pends :
      (c : Connection S) (st : Statement) (x : S × Result ℕ ResultCode) → Pends (executed d c st x)
  unfolding executed Pends
  executed-Pends c st (s, raise e) = ground arith
  executed-Pends c st (s, ok r) = check_lost-Pends (record c { engine = s }) st r _ (lost-ne r)

  prepared-Pends :
      (c : Connection S) (st : Statement) (x : S × Result ℕ (Unit {0})) → Pends (prepared d c st x)
  unfolding prepared Pends
  prepared-Pends c st (s, raise e) = ground arith
  prepared-Pends c st (s, ok _) =
      executed-Pends (record c { engine = s }) (record st { is_prepared = true }) _

  execute-Pends : (st : Statement) (c : Connection S) → Pends (execute d st c)
  unfolding execute Pends
  execute-Pends st c = ground (
    arith,
    executed-Pends c st (Statement.execute d st c.engine),
    prepared-Pends c st (prepare d st c.engine),
  )

  unlock-rollback_pending :
      (c : Connection S)
      → c.rollback_pending ≡ true
      → c.locking_counter ≤ 1
      → unlock d c ≡ record c {
        engine = d.do_rollback c.engine;
        commit_pending = 0;
        rollback_pending = false;
        locking_counter = 0;
        locked = false;
      }
  unfolding unlock finish rollback_transaction
  unlock-rollback_pending c p h = ground arith

  -- When a statement that asks for a rollback fails, then whatever statements the client goes on to
  -- execute, with whatever results, releasing the lock rolls the engine back and commits nothing:
  -- the engine is left as do_rollback leaves it, no commit and no rollback is pending, the mutex is
  -- free, and the limit is the one from before. The lock is assumed to be held once.
  pub failed_statement_rolls_back :
      (st : Statement) (sts : List Statement) (c : Connection S)
      → (execute d st c).result ≡ raise statement_failed
      → c.locking_counter ≤ 1
      → let c' = execute_all d (st ∷ sts) c in
        unlock d c' ≡ record c {
          engine = d.do_rollback c'.engine;
          commit_pending = 0;
          rollback_pending = false;
          locking_counter = 0;
          locked = false;
        }
  unfolding execute_all Pends
  failed_statement_rolls_back st sts c f h =
      let c1 = (execute d st c).connection in
      let p = execute_all-rollback_pending sts c1 (execute-Pends st c f) in
      let e = execute-Frame d st c in
      let g = execute_all-Frame d sts c1 in
      unlock-rollback_pending _ p (omega (arith, e.1, g.1)) ∙ cc (e.2, g.2, e.3, g.3)
