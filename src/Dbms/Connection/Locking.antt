-- ===== src/Dbms/Connection/Locking.antt =====
-- dbms::Connection and dbms::GuardConnection: the lock, and the transaction that it opens.
use coffee.Base.{ℕ, zero, suc, ◌≤◌, ◌≢◌, ◌≡◌, true, false, ok, raise, arith, List}
use coffee.Dbms.Driver.{begin_failed, blocked, Driver}
use coffee.Dbms.Statement.{Statement}
use coffee.Dbms.Connection.Frame.{execute_all-Frame}
use coffee.Dbms.Connection.{
  Connection, lock, unlock, take_mutex, enter, began, recover, recovered, commit, committed, finish,
  rollback_transaction, execute_all,
}

-- Nobody holds the connection.
pub record IsFree {S : Type 0} (c : Connection S) : Type 0 where
  pub mutex : c.locked ≡ false
  pub count : c.locking_counter ≡ 0

module _ {S : Type 0} (d : Driver S) where
  -- What a lock that succeeds on a free connection has set up.
  pub record IsHeld (c : Connection S) : Type 0 where
    pub mutex : c.locked ≡ true
    pub count : c.locking_counter ≡ 1
    pub fresh : c.rollback_pending ≡ false
    pub begun : c.commit_pending ≤ 1

  take_mutex-IsHeld :
      (c : Connection S) → IsFree c → (take_mutex d c).1 ≡ ok tt → IsHeld (take_mutex d c).0
  unfolding take_mutex enter began
  take_mutex-IsHeld c v e = ground arith

  pub recover-IsFree : (c : Connection S) → IsFree c → IsFree (recover d c).0
  unfolding recover recovered
  recover-IsFree c v = ground arith

  -- Locking a free connection that succeeds, recovered or not, holds the mutex once and starts
  -- with no rollback pending, and with at most the begun transaction to commit.
  pub lock-IsHeld : (c : Connection S) → IsFree c → (lock d c).1 ≡ ok tt → IsHeld (lock d c).0
  unfolding lock
  lock-IsHeld c v e = ground (
    arith,
    take_mutex-IsHeld c v,
    take_mutex-IsHeld (recover d c).0 (recover-IsFree c v),
    recover-IsFree c v,
  )

  pub unlock-IsFree : (c : Connection S) → c.locking_counter ≤ 1 → IsFree (unlock d c)
  unfolding unlock finish rollback_transaction commit committed
  unlock-IsFree c h = ground arith

  -- A guard's life: if the lock of a free connection succeeds, then after any statements, failed
  -- ones included, the guard's destructor leaves the connection free again.
  pub guard-IsFree :
      (sts : List Statement) (c : Connection S)
      → IsFree c
      → (lock d c).1 ≡ ok tt
      → IsFree (unlock d (execute_all d sts (lock d c).0))
  guard-IsFree sts c v e =
      let held = lock-IsHeld c v e in
      let f = execute_all-Frame d sts (lock d c).0 in
      unlock-IsFree _ (omega (arith, held.count, f.1))

  take_mutex_begin_failed :
      (c : Connection S)
      → (take_mutex d c).1 ≡ raise begin_failed
      → ((take_mutex d c).0.locked ≡ true) × ((take_mutex d c).0.locking_counter ≡ 1)
  unfolding take_mutex enter began
  take_mutex_begin_failed c e = ground arith

  lock_begin_failed :
      (c : Connection S)
      → (lock d c).1 ≡ raise begin_failed
      → ((lock d c).0.locked ≡ true) × ((lock d c).0.locking_counter ≡ 1)
  unfolding lock
  lock_begin_failed c e =
      ground (arith, take_mutex_begin_failed c, take_mutex_begin_failed (recover d c).0)

  take_mutex_blocked : (c : Connection S) → c.locked ≡ true → take_mutex d c ≡ (c, raise blocked)
  unfolding take_mutex
  take_mutex_blocked c h = ground arith

  lock_locked :
      (c : Connection S) → c.locked ≡ true → ((lock d c).1 ≢ ok tt) × ((lock d c).0.locked ≡ true)
  unfolding lock recover recovered
  lock_locked c h = ground (arith, take_mutex_blocked c h, take_mutex_blocked (recover d c).0)

  -- A client that tries to lock again and again.
  pub retry : ℕ → Connection S → Connection S
  retry zero c = c
  retry (suc n) c = retry n (lock d c).0

  retry_locked : (n : ℕ) (c : Connection S) → c.locked ≡ true → (lock d (retry n c)).1 ≢ ok tt
  unfolding retry
  retry_locked zero c h = (lock_locked c h).0
  retry_locked (suc n) c h = retry_locked n (lock d c).0 (lock_locked c h).1

  -- If the lock fails because the transaction cannot begin, the mutex stays taken: no later lock
  -- ever succeeds, however often it is tried and whatever the engine does.
  pub lock_begin_failed_blocks :
      (n : ℕ) (c : Connection S)
      → (lock d c).1 ≡ raise begin_failed
      → (lock d (retry n (lock d c).0)).1 ≢ ok tt
  lock_begin_failed_blocks n c e = retry_locked n (lock d c).0 (lock_begin_failed c e).0
