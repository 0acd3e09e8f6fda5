-- ===== src/Dbms/Database.antt =====
-- dbms::Database: source/src/dbms/Database.cc and source/include/coffee/dbms/Database.hpp, the
-- registers of a database's connections and statements.
--
-- The concrete database's `allocateConnection` and `allocateStatement` are fields of `Allocator`,
-- the type of the expressions with them. `running` is the state that `app::Service` keeps. The log
-- and the texts of exceptions are left out.
pub mod Registers
pub mod Opening
mod Tests
use coffee.Base.{
  ℕ, suc, Bool, true, false, ◌&&◌, Option, none, some, Result, ok, raise, List, [], ◌∷◌, ◌++◌,
  length, map, Key, if◌then◌else◌, leb, ◌==◌,
}
use coffee.Dbms.Driver.{Error, engine_error, Driver}
use coffee.Dbms.Statement.{Statement}
use coffee.Dbms.Connection.{Connection}

-- `not_allocated` is an exception of the concrete database's allocation.
pub data DatabaseError : Type 0 where
  too_many already_defined not_defined not_allocated none_available : DatabaseError
  not_opened : Error → DatabaseError

pub record Database (N S : Type 0) : Type 0 where
  pub running : Bool
  pub connections : List (N × Connection S)
  pub statements : List (N × Statement)

pub record Allocator (N E S : Type 0) : Type 0 where
  pub allocate_connection : N → Option (Connection S)
  pub allocate_statement : N → E → Option Statement
  pub translator : Option (E → E)

abbrev pub max_connection : ℕ
max_connection = 32

module _ {N A : Type 0} ⦃key : Key N⦄ where
  -- The first entry of a register that has the name.
  unfoldable pub search : N → List (N × A) → Option A
  search name [] = none
  search name ((n, a) ∷ entries) = if key.same n name then some a else search name entries

module _ {S : Type 0} (d : Driver S) where
  -- `Connection::open`.
  unfoldable pub open_one : Connection S → Connection S × Result Error (Unit {0})
  open_one c =
      let (s, opened) = d.open_connection c.engine in
      (record c { engine = s }, elim opened [ ok _ ↦ ok tt | raise e ↦ raise (engine_error e) ])

  unfoldable pub close_one : Connection S → Connection S
  close_one c = record c { engine = d.close c.engine }

module _ {N S : Type 0} (d : Driver S) where
  -- The loop of `do_initialize`: the connections, how many were opened, and whether one threw.
  unfoldable pub open_all : List (N × Connection S) → List (N × Connection S) × ℕ × Bool
  open_all [] = ([], 0, false)
  open_all ((name, c) ∷ connections) =
      let (c', opened) = open_one d c in
      let (others, counter, error) = open_all connections in
      elim opened [
        | ok _ ↦ ((name, c') ∷ others, suc counter, error)
        | raise e ↦ ((name, c') ∷ others, counter, true)
      ]

  unfoldable pub do_initialize : Database N S → Database N S × Result DatabaseError (Unit {0})
  do_initialize db =
      let (connections, counter, error) = open_all db.connections in
      (
        record db { connections = connections },
        if counter == 0 && error then raise none_available else ok tt,
      )

  -- The connections are closed and forgotten: the result has those that others may still share.
  unfoldable pub do_stop : Database N S → Database N S × List (N × Connection S)
  do_stop db = (
    record db { connections = []; statements = [] },
    map (λ e. (e.0, close_one d e.1)) db.connections,
  )

module _ {N E S : Type 0} (d : Driver S) (a : Allocator N E S) ⦃key : Key N⦄ where
  -- The end of `createConnection`: a connection that could not be opened is not kept.
  unfoldable pub keep_opened :
      N
      → Database N S
      → Connection S × Result Error (Unit {0})
      → Database N S × Result DatabaseError (Connection S)
  keep_opened name db (c, ok _) =
      (record db { connections = db.connections ++ (name, c) ∷ [] }, ok c)
  keep_opened name db (c, raise e) = (db, raise (not_opened e))

  -- A new connection of a database that runs is opened first.
  unfoldable pub register :
      N → Database N S → Option (Connection S) → Database N S × Result DatabaseError (Connection S)
  register name db none = (db, raise not_allocated)
  register name db (some c) = keep_opened name db (if db.running then open_one d c else (c, ok tt))

  -- The registers are asked for the name.
  unfoldable pub create_new :
      N → Database N S → Option (Connection S) → Database N S × Result DatabaseError (Connection S)
  create_new name db (some _) = (db, raise already_defined)
  create_new name db none = register name db (a.allocate_connection name)

  unfoldable pub create_connection :
      N → Database N S → Database N S × Result DatabaseError (Connection S)
  create_connection name db =
      if leb max_connection (length db.connections)
      then (db, raise too_many)
      else create_new name db (search name db.connections)

  unfoldable pub translate : E → E
  translate expression = elim a.translator [
    | none ↦ expression
    | some translator ↦ translator expression
  ]

  unfoldable pub create_statement :
      N → E → Database N S → Database N S × Result DatabaseError Statement
  create_statement name expression db = elim (search name db.statements) [
    | some _ ↦ (db, raise already_defined)
    | none ↦ elim (a.allocate_statement name (translate expression)) [
      | none ↦ (db, raise not_allocated)
      | some st ↦ (record db { statements = db.statements ++ (name, st) ∷ [] }, ok st)
    ]
  ]

module _ {N S : Type 0} ⦃key : Key N⦄ where
  unfoldable pub find_connection : N → Database N S → Result DatabaseError (Connection S)
  find_connection name db = elim (search name db.connections) [
    | none ↦ raise not_defined
    | some c ↦ ok c
  ]

  unfoldable pub find_statement : N → Database N S → Result DatabaseError Statement
  find_statement name db = elim (search name db.statements) [
    | none ↦ raise not_defined
    | some st ↦ ok st
  ]
