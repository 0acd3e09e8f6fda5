-- ===== src/Dbms/Datatype/Tests.antt =====
-- Runs and instances of the theorems on data.
use coffee.Base.{
  ℕ, Result, ℤ, pos, negsuc, false, ok, raise, [], ◌∷◌, number_key, find, if◌then◌else◌, ◌==◌, ltb,
  ◌≡◌, refl,
}
use coffee.Dbms.Datatype.{
  integer, Data, Set, DataError, dangling, no_comparison, same_type, compare_values, compare_data,
  insert_new, insert, find_data, data_at, clear_set, compare_each, compare_set, match_data,
  match_each, matches,
}

program : Unit {0}
unfolding find same_type compare_values compare_data insert_new insert find_data data_at clear_set
    compare_each compare_set match_data match_each matches
program = tt

abbrev number : ℕ → Data ℕ
number n = record { type = integer; can_be_null = false; is_null = false; value = n }

abbrev order : ℕ → ℕ → Result DataError ℤ
order a b = if a == b then ok (pos 0) else if ltb a b then ok (negsuc 0) else ok (pos 1)

-- `ShortBlock::do_compare`.
abbrev block_order : ℕ → ℕ → Result DataError ℤ
block_order a b = raise no_comparison

abbrev pair : ℕ → ℕ → Set ℕ ℕ
pair a b = record { datas = (2, number b) ∷ (1, number a) ∷ []; creation_order = 1 ∷ 2 ∷ [] }

compare-pairs : compare_set order (pair 3 4) (pair 3 5) ≡ ok (negsuc 0)
unfolding program
compare-pairs = refl

-- The iterators of a set that is cleared stand at nothing.
compare-cleared :
    compare_set order (clear_set (pair 3 4)) (record { datas = []; creation_order = [] })
    ≡ raise dangling
unfolding program
compare-cleared = refl

blocks-throw : compare_set block_order (pair 3 4) (pair 3 4) ≡ raise no_comparison
unfolding program
blocks-throw = refl
