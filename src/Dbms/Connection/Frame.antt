-- ===== src/Dbms/Connection/Frame.antt =====
-- dbms::Connection: what executing statements leaves alone.
use coffee.Base.{ℕ, suc, List, [], ◌∷◌, ◌≡◌, refl, true, false, Result, ok, raise, arith}
use coffee.Dbms.Driver.{Error, Driver, ResultCode}
use coffee.Dbms.Statement.{Statement, requires_commit, prepare}
use coffee.Dbms.Statement
use coffee.Dbms.Connection.{
  Connection, execute, recover, recovered, judge, fail_statement, check_lost, executed, prepared,
  count_commit, committed, commit, execute_all,
}

module _ {S : Type 0} where
  -- What executions leave alone: the lock, and the limit.
  abbrev pub Frame : Connection S → Connection S → Type 0
  Frame c b =
      (b.locked ≡ c.locked)
      × (b.locking_counter ≡ c.locking_counter)
      × (b.max_commit_pending ≡ c.max_commit_pending)
      × (b.accessing_counter ≡ c.accessing_counter)

module _ {S : Type 0} (d : Driver S) where
  pub commit-Frame : (c : Connection S) → Frame c (commit d c).0
  unfolding commit committed
  commit-Frame c = ground arith

  recover-Frame : (c : Connection S) → Frame c (recover d c).0
  unfolding recover recovered
  recover-Frame c = ground arith

  judge-Frame :
      (c : Connection S) (st : Statement) (r : ResultCode) (x : Result Error _)
      → Frame c (judge d c st r x).connection
  unfolding judge fail_statement count_commit
  judge-Frame c st r (raise e) = ground arith
  judge-Frame c st r (ok true) =
      ground (arith, commit-Frame (record c { commit_pending = suc c.commit_pending }))
  judge-Frame c st r (ok false) = ground arith

  check_lost-Frame :
      (c : Connection S) (st : Statement) (r : ResultCode) (x : Result Error _)
      → Frame c (check_lost d c st r x).connection
  unfolding check_lost
  check_lost-Frame c st r (raise e) = (refl, refl, refl, refl)
  check_lost-Frame c st r (ok true) = recover-Frame c
  check_lost-Frame c st r (ok false) = judge-Frame c st r _

  executed-Frame :
      (c : Connection S) (st : Statement) (x : S × Result ℕ ResultCode)
      → Frame c (executed d c st x).connection
  unfolding executed
  executed-Frame c st (s, raise e) = (refl, refl, refl, refl)
  executed-Frame c st (s, ok r) = check_lost-Frame (record c { engine = s }) st r _

  prepared-Frame :
      (c : Connection S) (st : Statement) (x : S × Result ℕ (Unit {0}))
      → Frame c (prepared d c st x).connection
  unfolding prepared
  prepared-Frame c st (s, raise e) = (refl, refl, refl, refl)
  prepared-Frame c st (s, ok _) =
      executed-Frame (record c { engine = s }) (record st { is_prepared = true }) _

  pub execute-Frame : (st : Statement) (c : Connection S) → Frame c (execute d st c).connection
  unfolding execute
  execute-Frame st c = ground (
    arith,
    executed-Frame c st (Statement.execute d st c.engine),
    prepared-Frame c st (prepare d st c.engine),
  )

  pub execute_all-Frame : (sts : List Statement) (c : Connection S) → Frame c (execute_all d sts c)
  unfolding execute_all
  execute_all-Frame [] c = (refl, refl, refl, refl)
  execute_all-Frame (st ∷ sts) c =
      ground (arith, execute-Frame st c, execute_all-Frame sts (execute d st c).connection)
