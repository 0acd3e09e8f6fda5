-- ===== src/Dbms/Statement.antt =====
-- dbms::Statement: source/src/dbms/Statement.cc and source/include/coffee/dbms/Statement.hpp.
-- The name, the expression and the timing average are left out: no decision depends on them.
use coffee.Base.{
  ℕ, suc, Bool, true, false, ◌||◌, List, [], ◌∷◌, ◌++◌, Option, none, some, Result, ok, raise,
  get_elem?, if◌then◌else◌,
}
use coffee.Dbms.Driver.{Error, out_of_range, null_binder, Engine, Driver, ResultCode}

pub data ActionOnError : Type 0 where
  ignore rollback : ActionOnError

pub record Statement : Type 0 where
  pub handle : ℕ
  pub action_on_error : ActionOnError
  pub requires_commit_flag : Bool
  pub is_prepared : Bool
  pub inputs : List ℕ
  pub outputs : List ℕ

abbrev pub is_empty {ℓ} : {A : Type ℓ} → List A → Bool
is_empty [] = true
is_empty (x ∷ xs) = false

-- A statement with no output is an insert, an update or a delete.
unfoldable pub requires_commit : Statement → Bool
requires_commit st = st.requires_commit_flag || is_empty st.outputs

unfoldable pub set_requires_commit : Statement → Bool → Statement × Bool
set_requires_commit st value =
    let st' = record st { requires_commit_flag = value } in (st', requires_commit st')

-- createBinderInput: the database's `allocateInputBind` gives a binder, or a null pointer.
unfoldable pub create_binder_input : Option ℕ → Statement → Result Error Statement
create_binder_input none st = raise null_binder
create_binder_input (some b) st = ok (record st { inputs = st.inputs ++ b ∷ [] })

unfoldable pub create_binder_output : Option ℕ → Statement → Result Error Statement
create_binder_output none st = raise null_binder
create_binder_output (some b) st = ok (record st { outputs = st.outputs ++ b ∷ [] })

-- getInputData and getOutputData, at a position that is not negative.
unfoldable pub get_input_data : Statement → ℕ → Result Error ℕ
get_input_data st pos = elim (get_elem? st.inputs pos) [ none ↦ raise out_of_range | some b ↦ ok b ]

unfoldable pub get_output_data : Statement → ℕ → Result Error ℕ
get_output_data st pos = elim (get_elem? st.outputs pos) [
  | none ↦ raise out_of_range
  | some b ↦ ok b
]

module _ {S : Type 0} where
  infixl 5 ◌>>=◌ ◌>>◌
  abbrev pub ◌>>=◌ : {A B : Type 0} → Engine S A → (A → Engine S B) → Engine S B
  ◌>>=◌ m f s = let (s', r) = m s in elim r [ ok a ↦ f a s' | raise e ↦ (s', raise e) ]

  abbrev pub ◌>>◌ : {B : Type 0} → Engine S (Unit {0}) → Engine S B → Engine S B
  m >> k = m >>= λ _. k

  abbrev pub return : {A : Type 0} → A → Engine S A
  return a s = (s, ok a)

  -- `for (auto& b : binds) b->method(*this, pos ++)`.
  unfoldable pub for_binders : (ℕ → ℕ → Engine S (Unit {0})) → List ℕ → ℕ → Engine S (Unit {0})
  for_binders method [] pos = return tt
  for_binders method (b ∷ bs) pos = do method b pos; for_binders method bs (suc pos)

  module _ (d : Driver S) where
    unfoldable pub prepare : Statement → Engine S (Unit {0})
    prepare st = do
      d.do_prepare st.handle
      for_binders d.prepare_binder st.inputs 0
      for_binders d.prepare_binder st.outputs 0

    unfoldable pub execute : Statement → Engine S ResultCode
    execute st = do for_binders d.do_encode st.inputs 0; d.do_execute st.handle

    unfoldable pub fetch : Statement → Engine S Bool
    fetch st = do
      found ← d.do_fetch st.handle
      if found then (do for_binders d.do_decode st.outputs 0; return true) else return false
