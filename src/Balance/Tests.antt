-- ===== src/Balance/Tests.antt =====
-- Runs and instances of the theorems of Balance.
use coffee.Base.{
  String, ℕ, ◌%◌, ◌<◌, ◌≡◌, refl, ◌≢◌, ◌↔◌, ℤ, pos, negsuc, Bool, true, false, List, [], ◌∷◌, ◌++◌,
  none, some, ok, raise, arith, if◌then◌else◌,
}
use coffee.Balance.ResourceList.{Resource, hidden, has_name, add, next}
use coffee.Balance.Search.{search, available_at, Chosen}
use coffee.Balance.Indexed
use coffee.Balance.RoundRobin
use coffee.Balance.ByRange
use coffee.Balance.ByRange.{Range, Disjoint}

program : Unit {0}
unfolding has_name add next search available_at Indexed.apply Indexed.to_size RoundRobin.apply
    RoundRobin.begin_at RoundRobin.finish RoundRobin.calls ByRange.clashes ByRange.some_clashes
    ByRange.add_range ByRange.find_range ByRange.new_range
program = tt

abbrev server : String → Bool → Resource
server n a = record { name = n; is_available = a }

abbrev three : List Resource
three = server "a" true ∷ server "b" false ∷ server "c" true ∷ []

indexed_skips : Indexed.apply three (pos 4) ≡ ok 2
unfolding program
indexed_skips = refl

-- -1 is converted to 2^64 - 1, which is 0 modulo 3.
indexed_negative : Indexed.apply three (negsuc 0) ≡ ok 0
unfolding program
indexed_negative = refl

round_robin_turns : RoundRobin.apply three (some 1) ≡ (some 0, ok 2)
unfolding program
round_robin_turns = refl

apply-Chosen_example : Chosen three (Indexed.to_size (pos 4) % 3) 0 (Indexed.apply three (pos 4))
apply-Chosen_example = Indexed.apply-Chosen three (pos 4)

round_robin_inside : RoundRobin.begin_at (some 1) < 3
unfolding program
round_robin_inside = omega arith

apply-Chosen_inside_example :
    (Chosen three (RoundRobin.begin_at (some 1)) 0 (RoundRobin.apply three (some 1)).1)
    × (RoundRobin.begin_at (RoundRobin.apply three (some 1)).0 < 3)
apply-Chosen_inside_example = RoundRobin.apply-Chosen_inside three (some 1) round_robin_inside

apply_fair_example :
    (m : ℕ) × (m < 3) × ((RoundRobin.apply three (RoundRobin.calls m three (some 1))).1 ≡ ok 0)
unfolding program
apply_fair_example = RoundRobin.apply_fair three (some 1) 0 round_robin_inside (omega arith) refl

abbrev ranges : List Range
ranges =
    record { bottom = pos 0; top = pos 9; strategy = 1 }
    ∷ record { bottom = pos 20; top = pos 29; strategy = 2 }
    ∷ []

ranges-Disjoint : Disjoint ranges
ranges-Disjoint = (omega arith, ((λ id h. ground arith), tt), (omega arith, tt, tt))

add_range_iff_example : (ByRange.add_range 7 ranges (pos 5) (pos 40) (some 3) ≡ raise hidden) ↔ (
    (id : ℤ) × (ByRange.within (ByRange.new_range (pos 5) (pos 40) 3) id ≡ true)
    × (ByRange.find_range ranges id ≢ none))
add_range_iff_example =
    ByRange.add_range_iff (pos 5) (pos 40) 3 7 (omega arith) (omega arith) ranges ranges-Disjoint

abbrev wider : List Range
wider = ranges ++ record { bottom = negsuc 4; top = negsuc 0; strategy = 3 } ∷ []

add_range_routes_example :
    Disjoint wider
    × ((id : ℤ)
        → ByRange.find_range wider id ≡ (
            if ByRange.within (ByRange.new_range (negsuc 4) (negsuc 0) 3) id
            then some (ByRange.new_range (negsuc 4) (negsuc 0) 3)
            else ByRange.find_range ranges id))
unfolding program
add_range_routes_example =
    ByRange.add_range_routes (negsuc 4) (negsuc 0) 3 7 (omega arith) (omega arith) ranges wider
      ranges-Disjoint refl
