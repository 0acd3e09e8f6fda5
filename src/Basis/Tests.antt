-- ===== src/Basis/Tests.antt =====
-- Runs and instances of the theorems of Basis.
use coffee.Base.{
  ℕ, true, List, length, ◌≤◌, none, some, [], ◌∷◌, number_key, find, assign, erase, ◌==◌, ==_iff,
  ◌≡◌, refl, arith, Bool-cases, inl, inr,
}
use coffee.Basis.Cache.{
  Cache, kkvv, unlink, last_value, is_last, push_back, update_access, find_pair, erase_key,
  drop_oldest, set_value, set_pair,
}
use coffee.Basis.Access.{lookup, IsLinked}
use coffee.Basis.Lru.{get, without, use_pair, rest_of, put_pair}
use coffee.Basis.Order.{contents, DistinctNodes}
use coffee.Basis.Sizes.{IsCache, DistinctKeys}
use coffee.Basis.Removal.{has_key}
use coffee.Basis.Refinement.{
  Request, find_of, set_of, erase_of, found, stored, erased, call, calls, answer, answers,
  calls-answers,
}

program : Unit {0}
unfolding kkvv unlink last_value is_last push_back update_access find_pair erase_key drop_oldest
    set_value set_pair lookup find assign erase get without use_pair rest_of put_pair contents
    has_key call calls answer answers DistinctNodes DistinctKeys
program = tt

-- The keys 5 and 6, of which 5 is the older.
abbrev full : Cache ℕ ℕ
full = record {
  max_size = 2;
  values = (0, (5, 50)) ∷ (1, (6, 60)) ∷ [];
  quick_access = (6, 1) ∷ (5, 0) ∷ [];
  next_node = 2;
}

forgets_oldest :
    set_pair 7 70 full
    ≡ some (record {
      max_size = 2;
      values = (1, (6, 60)) ∷ (2, (7, 70)) ∷ [];
      quick_access = (7, 2) ∷ (6, 1) ∷ [];
      next_node = 3;
    })
unfolding program
forgets_oldest = refl

full-IsLinked : IsLinked full
unfolding program
full-IsLinked = record {
  linked = λ k node h. elim (Bool-cases (k == 6)) [
    | inl e ↦ (60, ground (arith, ==_iff k 6, ==_iff 0 node, ==_iff 1 node))
    | inr e ↦ (50, ground (arith, ==_iff k 5, ==_iff k 6, ==_iff 0 node, ==_iff 1 node))
  ];
  older = λ node h. ground arith;
}

full-IsCache : IsCache full
unfolding program
full-IsCache = record {
  links = full-IsLinked;
  owned = (refl, (refl, tt));
  nodes = (refl, (refl, tt));
  keys = (refl, (refl, tt));
  size = refl;
  bounded = omega arith;
}

-- The find keeps 5, so the set drops 6.
abbrev requests : List (Request ℕ ℕ)
requests = find_of 5 ∷ set_of 7 70 ∷ find_of 6 ∷ erase_of 5 ∷ []

run_of_requests :
    answers 2 requests ((5, 50) ∷ (6, 60) ∷ [])
    ≡ ((7, 70) ∷ [], found (some 50) ∷ stored ∷ found none ∷ erased true ∷ [])
unfolding program
run_of_requests = refl

calls-answers_example :
    (c' : Cache ℕ ℕ) × (calls requests full
      ≡ some (c', (answers 2 requests (contents full.values)).1))
    × (contents c'.values ≡ (answers 2 requests (contents full.values)).0)
    × IsCache c'
    × (c'.max_size ≡ 2)
    × (length c'.values ≤ 2)
calls-answers_example = calls-answers requests full full-IsCache (omega arith)
