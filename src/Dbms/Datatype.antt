-- ===== src/Dbms/Datatype.antt =====
-- source/src/dbms/datatype/Abstract.cc and Set.cc, and the comparison of keys of
-- source/src/persistence/PrimaryKey.cc.
--
-- What a concrete type does in its `do_compare` is the parameter `do_compare`, which may throw: that of
-- the two types of blocks always does. `m_datas` is a list of
-- names with their data, and an iterator of `m_creationOrder` is a name: `dangling` stands for the use
-- of one whose entry is gone. A set does not own its data, so a copy of a set has the same data.
pub mod Comparing
pub mod Inserting
mod Tests
use coffee.Base.{
  ℕ, ℤ, pos, negsuc, Bool, true, false, ◌&&◌, not, Option, none, some, Result, ok, raise, ◌>>=◌,
  List, [], ◌∷◌, ◌++◌, length, Key, find, if◌then◌else◌, ◌==◌,
}

pub data Datatype : Type 0 where
  integer string float short_block long_block date time_stamp multi_string : Datatype

abbrev type_index : Datatype → ℕ
type_index integer = 0
type_index string = 1
type_index float = 2
type_index short_block = 3
type_index long_block = 4
type_index date = 5
type_index time_stamp = 6
type_index multi_string = 7

pub data DataError : Type 0 where
  can_not_be_null is_null_data type_differs not_initialized already_defined not_defined size_differs
        dangling no_comparison :
      DataError

-- `datatype::Abstract`.
pub record Data (V : Type 0) : Type 0 where
  pub type : Datatype
  pub can_be_null : Bool
  pub is_null : Bool
  pub value : V

unfoldable pub same_type : Datatype → Datatype → Bool
same_type a b = type_index a == type_index b

module _ {V : Type 0} where
  -- `Abstract::isNull ()`, which makes the data null.
  unfoldable pub set_null : Data V → Result DataError (Data V)
  set_null data_ =
      if data_.can_be_null then ok (record data_ { is_null = true }) else raise can_not_be_null

  -- `Abstract::clear`, given the value that the type's `do_clear` leaves.
  unfoldable pub clear_data : (V → V) → Data V → Data V
  clear_data do_clear data_ = record data_ {
    is_null = (if data_.can_be_null then true else data_.is_null);
    value = do_clear data_.value;
  }

  unfoldable pub exception_when_is_null : Data V → Result DataError (Unit {0})
  exception_when_is_null data_ = if data_.is_null then raise is_null_data else ok tt

module _ {V : Type 0} (do_compare : V → V → Result DataError ℤ) where
  unfoldable pub compare_values : Data V → Data V → Result DataError ℤ
  compare_values a b =
      if a.is_null
      then (if b.is_null then ok (pos 0) else ok (negsuc 0))
      else (if b.is_null then ok (pos 1) else do_compare a.value b.value)

  unfoldable pub compare_data : Data V → Data V → Result DataError ℤ
  compare_data a b = if same_type a.type b.type then compare_values a b else raise type_differs

pub record Set (N V : Type 0) : Type 0 where
  pub datas : List (N × Data V)
  pub creation_order : List N

module _ {N V : Type 0} ⦃key : Key N⦄ where
  unfoldable pub insert_new : N → Data V → Set N V → Option (Data V) → Result DataError (Set N V)
  insert_new name data_ s (some _) = raise already_defined
  insert_new name data_ s none =
      ok
        (record { datas = (name, data_) ∷ s.datas; creation_order = s.creation_order ++ name ∷ [] })

  -- A null pointer is `none`.
  unfoldable pub insert : N → Option (Data V) → Set N V → Result DataError (Set N V)
  insert name none s = raise not_initialized
  insert name (some data_) s = insert_new name data_ s (find s.datas name)

  unfoldable pub find_data : N → Set N V → Result DataError (Data V)
  find_data name s = elim (find s.datas name) [ none ↦ raise not_defined | some data_ ↦ ok data_ ]

  -- The data of an iterator.
  unfoldable pub data_at : N → Set N V → Result DataError (Data V)
  data_at name s = elim (find s.datas name) [ none ↦ raise dangling | some data_ ↦ ok data_ ]

module _ {N V : Type 0} where
  -- `Set::clear` leaves `m_creationOrder` as it is.
  unfoldable pub clear_set : Set N V → Set N V
  clear_set s = record s { datas = [] }

unfoldable pub is_zero : ℤ → Bool
is_zero (pos n) = n == 0
is_zero (negsuc n) = false

module _ {N V : Type 0} (do_compare : V → V → Result DataError ℤ) ⦃key : Key N⦄ where
  -- The loop of `compare`: the first result that is not 0.
  unfoldable pub compare_each : List N → Set N V → Set N V → Result DataError ℤ
  compare_each [] a b = ok (pos 0)
  compare_each (name ∷ names) a b = data_at name a >>= λ x. find_data name b >>= λ y.
      compare_data do_compare x y >>= λ result. elim result [
        | pos n ↦ if n == 0 then compare_each names a b else ok (pos n)
        | negsuc n ↦ ok (negsuc n)
      ]

  -- `compare` with another object.
  unfoldable pub compare_set : Set N V → Set N V → Result DataError ℤ
  compare_set a b =
      if length a.datas == length b.datas
      then compare_each a.creation_order a b
      else raise size_differs

  -- `operator==`, which takes an exception of `compare` for a difference.
  unfoldable pub equal_sets : Set N V → Set N V → Bool
  equal_sets a b = elim (compare_set a b) [ raise e ↦ false | ok result ↦ is_zero result ]

module _ {V : Type 0} where
  unfoldable pub match_data : Data V → Option (Data V) → Bool
  match_data x none = false
  match_data x (some y) = same_type y.type x.type

module _ {N V : Type 0} ⦃key : Key N⦄ where
  unfoldable pub match_each : List (N × Data V) → Set N V → Bool
  match_each [] other = true
  match_each ((name, x) ∷ datas) other =
      let others = match_each datas other in match_data x (find other.datas name) && others

  -- `PrimaryKey::matches`.
  unfoldable pub matches : Set N V → Set N V → Bool
  matches a other = length a.datas == length other.datas && match_each a.datas other
