-- ===== src/Dbms/Database/Registers.antt =====
-- The registers of connections and statements: no name twice, and not too many connections.
use coffee.Base.{
  suc, ◌≤◌, false, Option, none, some, Result, ok, raise, List, [], ◌∷◌, ◌++◌, length, Key,
  if◌then◌else◌, leb, ◌≡◌, refl, arith, length-append, either,
}
use coffee.Dbms.Driver.{Error, Driver}
use coffee.Dbms.Connection.{Connection}
use coffee.Dbms.Database.{
  DatabaseError, not_defined, Database, Allocator, max_connection, search, open_one, keep_opened,
  register, create_new, create_connection, find_connection,
}

module _ {N A : Type 0} ⦃key : Key N⦄ where
  -- No name twice.
  unfoldable pub DistinctNames : List (N × A) → Type 0
  DistinctNames [] = Unit
  DistinctNames ((name, a) ∷ entries) = (search name entries ≡ none) × DistinctNames entries

  -- An entry at the end is found if none before has its name.
  search-append :
      (name j : N) (a : A) (entries : List (N × A))
      → search name entries ≡ none
      → search j (entries ++ (name, a) ∷ [])
        ≡ (if key.same name j then some a else search j entries)
  unfolding search
  search-append name j a [] h = refl
  search-append name j a ((n, b) ∷ entries) h = ground (
    arith,
    search-append name j a entries,
    key.same_iff n name,
    key.same_iff n j,
    key.same_iff name j,
  )

  append-DistinctNames :
      (name : N) (a : A) (entries : List (N × A))
      → DistinctNames entries
      → search name entries ≡ none
      → DistinctNames (entries ++ (name, a) ∷ [])
  unfolding DistinctNames search
  append-DistinctNames name a [] d h = (refl, tt)
  append-DistinctNames name a ((n, b) ∷ entries) d h = (
    ground (arith, search-append name n a entries, key.same_iff n name, key.same_iff name n, d.0),
    append-DistinctNames name a entries d.1 (ground arith),
  )

module _ {N S : Type 0} ⦃key : Key N⦄ where
  pub record IsDatabase (db : Database N S) : Type 0 where
    pub connections : DistinctNames db.connections
    pub statements : DistinctNames db.statements
    pub limit : length db.connections ≤ 32

  -- What creating a connection does: if it returns one, the name was not found and now has the
  -- connection, and every other name is as it was; if it throws, nothing changes.
  unfoldable pub Created :
      N → Database N S → Database N S → Result DatabaseError (Connection S) → Type 0
  Created name db db' (raise e) = db' ≡ db
  Created name db db' (ok c) =
      (find_connection name db ≡ raise not_defined)
      × ((j : N) → find_connection j db' ≡ (if key.same name j then ok c else find_connection j db))
      × (db'.statements ≡ db.statements)
      × (length db'.connections ≡ suc (length db.connections))

  pushed-Created :
      (name : N) (c : Connection S) (db : Database N S)
      → IsDatabase db
      → search name db.connections ≡ none
      → leb max_connection (length db.connections) ≡ false
      → (let db' : Database N S = record db { connections = db.connections ++ (name, c) ∷ [] } in
          IsDatabase db' × Created name db db' (ok c))
  unfolding Created find_connection
  pushed-Created name c db h n l =
      let longer = length-append db.connections ((name, c) ∷ []) in
      (
        record {
          connections = append-DistinctNames name c db.connections h.connections n;
          statements = h.statements;
          limit = ground (arith, longer);
        },
        (
          ground (arith, n),
          λ j. ground (arith, search-append name j c db.connections n),
          refl,
          omega (arith, longer),
        ),
      )

module _ {N E S : Type 0} (d : Driver S) (a : Allocator N E S) ⦃key : Key N⦄ where
  -- The outcome of a call that creates a connection.
  abbrev pub CreatedBy :
      N → Database N S → Database N S × Result DatabaseError (Connection S) → Type 0
  CreatedBy name db out = IsDatabase out.0 × Created name db out.0 out.1

  keep_opened-Created :
      (name : N) (db : Database N S) (opened : Connection S × Result Error (Unit {0}))
      → IsDatabase db
      → search name db.connections ≡ none
      → leb max_connection (length db.connections) ≡ false
      → CreatedBy name db (keep_opened d a name db opened)
  unfolding keep_opened Created
  keep_opened-Created name db (c, ok u) h n l = pushed-Created name c db h n l
  keep_opened-Created name db (c, raise e) h n l = (h, refl)

  register-Created :
      (name : N) (db : Database N S) (allocated : Option (Connection S))
      → IsDatabase db
      → search name db.connections ≡ none
      → leb max_connection (length db.connections) ≡ false
      → CreatedBy name db (register d a name db allocated)
  unfolding register Created
  register-Created name db none h n l = (h, refl)
  register-Created name db (some c) h n l =
      keep_opened-Created name db (if db.running then open_one d c else (c, ok tt)) h n l

  create_new-Created :
      (name : N) (db : Database N S) (found : Option (Connection S))
      → IsDatabase db
      → search name db.connections ≡ found
      → leb max_connection (length db.connections) ≡ false
      → CreatedBy name db (create_new d a name db found)
  unfolding create_new Created
  create_new-Created name db (some c) h n l = (h, refl)
  create_new-Created name db none h n l =
      register-Created name db (a.allocate_connection name) h n l

  -- Creating a connection keeps the invariant of a database: no name twice, and at most 32
  -- connections. If it returns a connection, the name was not defined and is now found with that
  -- connection, and every other name is found as before; if it throws, the database is as before, also
  -- when a new connection could not be opened.
  pub create_connection-Created :
      (name : N) (db : Database N S)
      → IsDatabase db
      → CreatedBy name db (create_connection d a name db)
  unfolding create_connection Created
  create_connection-Created name db h =
      either (CreatedBy name db) (leb max_connection (length db.connections)) (λ l. (h, refl))
        (λ l. create_new-Created name db (search name db.connections) h refl l)
