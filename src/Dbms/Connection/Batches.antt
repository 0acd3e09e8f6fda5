-- ===== src/Dbms/Connection/Batches.antt =====
-- dbms::Connection: the commit that a limit on pending statements asks for.
use coffee.Base.{
  ℕ, suc, ◌+◌, ◌*◌, ◌<◌, ◌≡◌, refl, Bool, true, false, ok, ap, arith, List, [], ◌∷◌, All, length,
}
use coffee.Dbms.Driver.{Driver, ResultCode, successful, lost}
use coffee.Dbms.Statement.{Statement, requires_commit, prepare}
use coffee.Dbms.Statement
use coffee.Dbms.Connection.{
  Connection, commit, committed, execute, executed, prepared, check_lost, judge, count_commit,
  reach_max_commit_pending, execute_all,
}

-- An engine that is up, on which commits succeed; `commits` counts them.
pub record Commits {S : Type 0} (d : Driver S) (commits : S → ℕ) : Type 0 where
  pub available : (s : S) → d.is_available s ≡ true
  pub succeeds : (s : S) → (d.do_commit s).1 ≡ ok tt
  pub counted : (s : S) → commits (d.do_commit s).0 ≡ suc (commits s)

-- A statement that needs a commit, and that the engine executes with success.
pub record Succeeds {S : Type 0} (d : Driver S) (commits : S → ℕ) (st : Statement) : Type 0 where
  pub writes : requires_commit st ≡ true
  pub prepares : (s : S) → (prepare d st s).1 ≡ ok tt
  pub prepare_commits : (s : S) → commits (prepare d st s).0 ≡ commits s
  pub code : ResultCode
  pub executes :
      (s : S) (p : Bool) → (Statement.execute d (record st { is_prepared = p }) s).1 ≡ ok code
  pub execute_commits :
      (s : S) (p : Bool)
      → commits (Statement.execute d (record st { is_prepared = p }) s).0 ≡ commits s
  pub success : successful code ≡ ok true
  pub connected : lost code ≡ ok false

module _ {S : Type 0} (d : Driver S) (commits : S → ℕ) (up : Commits d commits) where
  -- `n` more statements have been executed since `c`, and a commit was sent for each full batch.
  pub record Batched (n : ℕ) (c b : Connection S) : Type 0 where
    pub limit : b.max_commit_pending ≡ c.max_commit_pending
    pub clear : b.rollback_pending ≡ false
    pub below : b.commit_pending < c.max_commit_pending
    pub balance :
        commits b.engine * c.max_commit_pending + b.commit_pending
        ≡ commits c.engine * c.max_commit_pending + c.commit_pending + n

  commit_up :
      (c : Connection S)
      → commit d c ≡ (
        record c {
          engine = (d.do_commit c.engine).0;
          commit_pending = 0;
          rollback_pending = false;
        },
        ok tt,
      )
  unfolding commit committed
  commit_up c = ground (arith, up.available c.engine, up.succeeds c.engine)

  count_commit-Batched :
      (c : Connection S) (st : Statement) (r : ResultCode)
      → c.rollback_pending ≡ false
      → c.commit_pending < c.max_commit_pending
      → Batched 1 c (count_commit d c st r).connection
  unfolding count_commit reach_max_commit_pending
  count_commit-Batched c st r p h = ground (
    arith,
    commit_up (record c { commit_pending = suc c.commit_pending }),
    ap (λ (t : ℕ). t * c.max_commit_pending) (up.counted c.engine),
  )

  executed-Batched :
      (c : Connection S) (st : Statement) (p : Bool) (w : Succeeds d commits st)
      → c.rollback_pending ≡ false
      → c.commit_pending < c.max_commit_pending
      → let st' : Statement = record st { is_prepared = p } in
        Batched 1 c (executed d c st' (Statement.execute d st' c.engine)).connection
  unfolding executed check_lost judge requires_commit
  executed-Batched c st p w r h =
      let st' : Statement = record st { is_prepared = p } in
      let s = (Statement.execute d st' c.engine).0 in
      ground (
        arith,
        w.executes c.engine p,
        w.writes,
        w.success,
        w.connected,
        ap (λ (t : ℕ). t * c.max_commit_pending) (w.execute_commits c.engine p),
        count_commit-Batched (record c { engine = s }) st' w.code,
      )

  prepared-Batched :
      (c : Connection S) (st : Statement) (w : Succeeds d commits st)
      → c.rollback_pending ≡ false
      → c.commit_pending < c.max_commit_pending
      → Batched 1 c (prepared d c st (prepare d st c.engine)).connection
  unfolding prepared
  prepared-Batched c st w r h =
      let s = (prepare d st c.engine).0 in
      ground (
        arith,
        w.prepares c.engine,
        ap (λ (t : ℕ). t * c.max_commit_pending) (w.prepare_commits c.engine),
        executed-Batched (record c { engine = s }) st true w,
      )

  execute-Batched :
      (st : Statement) (c : Connection S) (w : Succeeds d commits st)
      → c.rollback_pending ≡ false
      → c.commit_pending < c.max_commit_pending
      → Batched 1 c (execute d st c).connection
  unfolding execute
  execute-Batched st c w r h =
      ground (arith, executed-Batched c st st.is_prepared w, prepared-Batched c st w)

  -- On a connection with a limit m on pending statements, where fewer than m statements and no
  -- rollback are pending at the start, every m statements that succeed send one commit: after n of
  -- them, (commits sent) * m + (statements pending) has grown by n exactly, fewer than m statements
  -- are pending, and no rollback is. The engine is taken to be up, and to commit.
  pub execute_all-Batched :
      (sts : List Statement) (c : Connection S)
      → All (Succeeds d commits) sts
      → c.rollback_pending ≡ false
      → c.commit_pending < c.max_commit_pending
      → Batched (length sts) c (execute_all d sts c)
  unfolding execute_all
  execute_all-Batched [] c w r h = record {
    limit = refl;
    clear = r;
    below = h;
    balance = omega arith;
  }
  execute_all-Batched (st ∷ sts) c w r h =
      let one = execute-Batched st c w.0 r h in
      let rest =
        execute_all-Batched sts (execute d st c).connection w.1 one.clear
          (omega (arith, one.below, one.limit)) in
      ground (arith, one.balance, one.limit, rest.balance, rest.below, rest.clear, rest.limit)
