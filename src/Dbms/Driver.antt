-- ===== src/Dbms/Driver.antt =====
-- What dbms::Connection and dbms::Statement ask of a concrete database (the pure virtual methods
-- that dbms.sqlite and dbms.ldap implement over a client library), and dbms::ResultCode.
use coffee.Base.{ℕ, ℤ, Bool, Option, none, some, Result, ok, raise}

-- The exceptions that the module throws. `engine_error` passes on an exception of the driver.
pub data Error : Type 0 where
  no_interpreter rollback_required lost_connection statement_failed : Error
  not_available begin_failed out_of_range null_binder : Error
  blocked : Error
  engine_error : ℕ → Error

-- dbms::ErrorCodeInterpreter.
pub record Interpreter : Type 0 where
  pub not_found : ℤ → Bool
  pub successful : ℤ → Bool
  pub locked : ℤ → Bool
  pub lost_connection : ℤ → Bool

-- dbms::ResultCode. The default constructor leaves the interpreter null.
pub record ResultCode : Type 0 where
  pub interpreter : Option Interpreter
  pub numeric_code : ℤ

abbrev pub interpret : (Interpreter → ℤ → Bool) → ResultCode → Result Error Bool
interpret f r = elim r.interpreter [
  | none ↦ raise no_interpreter
  | some i ↦ ok (f i r.numeric_code)
]

unfoldable pub not_found : ResultCode → Result Error Bool
not_found = interpret λ i. i.not_found

unfoldable pub successful : ResultCode → Result Error Bool
successful = interpret λ i. i.successful

unfoldable pub locked : ResultCode → Result Error Bool
locked = interpret λ i. i.locked

unfoldable pub lost : ResultCode → Result Error Bool
lost = interpret λ i. i.lost_connection

-- A step of the engine: its next state, and a value or an exception of the driver's own.
abbrev pub Engine {ℓ} : Type 0 → Type ℓ → Type ℓ
Engine S A = S → S × Result ℕ A

-- The virtual methods, over a state `S` of the engine. Statements and binders are handles.
pub record Driver (S : Type 0) : Type 0 where
  pub is_available : S → Bool
  pub open_connection : Engine S (Unit {0})
  pub close : S → S
  pub do_begin_transaction : Engine S Bool
  pub do_commit : Engine S (Unit {0})
  pub do_rollback : S → S
  pub notify_recovery_fail : S → S
  pub do_prepare : ℕ → Engine S (Unit {0})
  pub do_execute : ℕ → Engine S ResultCode
  pub do_fetch : ℕ → Engine S Bool
  pub prepare_binder : ℕ → ℕ → Engine S (Unit {0})
  pub do_encode : ℕ → ℕ → Engine S (Unit {0})
  pub do_decode : ℕ → ℕ → Engine S (Unit {0})
