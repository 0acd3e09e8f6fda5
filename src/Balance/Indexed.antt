-- ===== src/Balance/Indexed.antt =====
-- balance::StrategyIndexed: source/src/balance/StrategyIndexed.cc. The result is the position of
-- the resource in the list.
use coffee.Base.{
  ℕ, suc, ◌-◌, ◌^◌, ◌%◌, ◌<◌, ◌≡◌, ◌≢◌, ℤ, pos, negsuc, List, Result, raise, arith, length,
  if◌then◌else◌, ◌==◌, ℕ_discrete, subst, sym,
}
use coffee.Balance.ResourceList.{Resource, Error, empty_list}
use coffee.Balance.Search.{search, Chosen, search-Chosen}

-- `identifier % size` converts the `int` to `size_t` first.
unfoldable pub to_size : ℤ → ℕ
to_size (pos n) = n
to_size (negsuc n) = 2 ^ 64 - suc n

unfoldable pub apply : List Resource → ℤ → Result Error ℕ
apply rs identifier =
    if length rs == 0
    then raise empty_list
    else (let start = to_size identifier % length rs in search (length rs) rs start start)

-- The search from a position in range, as a whole.
pub search_round :
    (rs : List Resource) (start : ℕ)
    → start < length rs
    → Chosen rs start 0 (search (length rs) rs start start)
search_round rs start h =
    subst (λ t. Chosen rs start 0 (search (length rs) rs t start)) (ground arith)
      (search-Chosen (length rs) rs start 0 h (omega arith) (omega arith))

apply_empty :
    (rs : List Resource) (identifier : ℤ) → length rs ≡ 0 → apply rs identifier ≡ raise empty_list
unfolding apply
apply_empty rs identifier e = ground arith

apply-search :
    (rs : List Resource) (identifier : ℤ)
    → length rs ≢ 0
    → apply rs identifier
      ≡ search (length rs) rs (to_size identifier % length rs) (to_size identifier % length rs)
unfolding apply
apply-search rs identifier e = ground arith

-- Whatever the list and the identifier, the result is one of these: the first available resource,
-- going round the list once from position identifier % size; the exception for an empty list, if
-- it is empty; or the exception for no available resource, if every resource is unavailable. The
-- loop always ends.
pub apply-Chosen :
    (rs : List Resource) (identifier : ℤ)
    → Chosen rs (to_size identifier % length rs) 0 (apply rs identifier)
apply-Chosen rs identifier = elim (ℕ_discrete (length rs) 0) [
  | yes e ↦ subst (Chosen rs _ 0) (sym (apply_empty rs identifier e)) e
  | no ne ↦
      subst (Chosen rs _ 0) (sym (apply-search rs identifier ne))
        (search_round rs (to_size identifier % length rs) (grind arith))
]
