-- ===== src/Balance/Search.antt =====
-- The loop that StrategyIndexed and StrategyRoundRobin share: from a position on, round the list,
-- until a resource is available or the starting point is met again.
use coffee.Base.{
  subst, sym, ℕ_discrete, ℕ, zero, suc, ◌+◌, ◌-◌, ◌<◌, ◌≤◌, ◌≡◌, refl, Bool, true, false, List,
  none, some, Result, ok, raise, arith, length, get_elem?, if◌then◌else◌, ◌==◌, ltb, Bool-cases,
  inl, inr,
}
use coffee.Balance.ResourceList.{Resource, next, Error, empty_list, no_available, out_of_fuel}

unfoldable pub available_at : List Resource → ℕ → Bool
available_at rs ii = elim (get_elem? rs ii) [ none ↦ false | some r ↦ r.is_available ]

-- The `do … while` loop; the fuel bounds the rounds.
unfoldable pub search : ℕ → List Resource → ℕ → ℕ → Result Error ℕ
search zero rs ww end = raise out_of_fuel
search (suc fuel) rs ww end = elim (available_at rs ww) [
  | true ↦ ok ww
  | false ↦ elim (next rs ww == end) [
    | true ↦ raise no_available
    | false ↦ search fuel rs (next rs ww) end
  ]
]

-- The position `k` steps after the start, in a list of `n`.
abbrev pub wrap : ℕ → ℕ → ℕ
wrap n k = if ltb k n then k else k - n

-- What the loop decides: the first available position from the start on, or that there is none.
abbrev pub Chosen : List Resource → ℕ → ℕ → Result Error ℕ → Type 0
Chosen rs start k (ok ii) =
    (j : ℕ) × (k ≤ j)
    × (j < length rs)
    × (ii ≡ wrap (length rs) (start + j))
    × (available_at rs ii ≡ true)
    × ((m : ℕ) → k ≤ m → m < j → available_at rs (wrap (length rs) (start + m)) ≡ false)
Chosen rs start k (raise no_available) =
    (m : ℕ) → k ≤ m → m < length rs → available_at rs (wrap (length rs) (start + m)) ≡ false
Chosen rs start k (raise empty_list) = length rs ≡ 0
Chosen rs start k (raise _) = ⊥

pub next-wrap :
    (rs : List Resource) (start k : ℕ)
    → start < length rs
    → k < length rs
    → next rs (wrap (length rs) (start + k)) ≡ wrap (length rs) (start + suc k)
unfolding next
next-wrap rs start k h g = ground arith

back_at_start :
    (n start k : ℕ) → start < n → k < n → (wrap n (start + suc k) == start) ≡ (suc k == n)
back_at_start n start k h g = ground arith

Chosen-step :
    (rs : List Resource) (start k : ℕ) (r : Result Error ℕ)
    → available_at rs (wrap (length rs) (start + k)) ≡ false
    → Chosen rs start (suc k) r
    → Chosen rs start k r
Chosen-step rs start k (ok ii) h (j, le, lt, e, a, before) =
    (j, omega arith, lt, e, a, λ m p q. at_or_after k m p h (λ p'. before m p' q))
  where
    at_or_after :
        (k m : ℕ)
        → k ≤ m
        → available_at rs (wrap (length rs) (start + k)) ≡ false
        → (suc k ≤ m → available_at rs (wrap (length rs) (start + m)) ≡ false)
        → available_at rs (wrap (length rs) (start + m)) ≡ false
    at_or_after k m p h later = elim (ℕ_discrete k m) [
      | yes e ↦ subst (λ t. available_at rs (wrap (length rs) (start + t)) ≡ false) e h
      | no ne ↦ later (omega arith)
    ]
Chosen-step rs start k (raise no_available) h before = λ m p q. elim (ℕ_discrete k m) [
  | yes e ↦ subst (λ t. available_at rs (wrap (length rs) (start + t)) ≡ false) e h
  | no ne ↦ before m (omega arith) q
]
Chosen-step rs start k (raise empty_list) h e = e
Chosen-step rs start k (raise _) h e = elim e [ ]

search_free :
    (fuel : ℕ) (rs : List Resource) (ww end : ℕ)
    → available_at rs ww ≡ true
    → search (suc fuel) rs ww end ≡ ok ww
unfolding search
search_free fuel rs ww end a = ground arith

search_last :
    (fuel : ℕ) (rs : List Resource) (ww end : ℕ)
    → available_at rs ww ≡ false
    → (next rs ww == end) ≡ true
    → search (suc fuel) rs ww end ≡ raise no_available
unfolding search
search_last fuel rs ww end a e = ground arith

search_more :
    (fuel : ℕ) (rs : List Resource) (ww end : ℕ)
    → available_at rs ww ≡ false
    → (next rs ww == end) ≡ false
    → search (suc fuel) rs ww end ≡ search fuel rs (next rs ww) end
unfolding search
search_more fuel rs ww end a e = ground arith

-- From any step of the round, enough fuel decides: the loop never runs out.
pub search-Chosen :
    (fuel : ℕ) (rs : List Resource) (start k : ℕ)
    → start < length rs
    → k < length rs
    → length rs ≤ k + fuel
    → Chosen rs start k (search fuel rs (wrap (length rs) (start + k)) start)
search-Chosen zero rs start k h g f = absurd (omega arith)
search-Chosen (suc fuel) rs start k h g f = elim (Bool-cases (available_at rs ww)) [
  | inl free ↦
      subst (Chosen rs start k) (sym (search_free fuel rs ww start free))
        (k, omega arith, g, refl, free, λ m p q. absurd (omega arith))
  | inr busy ↦ elim (ℕ_discrete (suc k) (length rs)) [
    | yes last ↦
        subst (Chosen rs start k)
          (sym (search_last fuel rs ww start busy (ground (arith, step, ends))))
          (λ m p q.
            subst (λ t. available_at rs (wrap (length rs) (start + t)) ≡ false) {x = k} {y = m}
              (omega arith) busy)
    | no more ↦
        subst (Chosen rs start k)
          (sym (search_more fuel rs ww start busy (ground (arith, step, ends))))
          (Chosen-step rs start k _ busy (
            subst (λ t. Chosen rs start (suc k) (search fuel rs t start)) (sym step)
              (search-Chosen fuel rs start (suc k) h (omega arith) (omega arith))))
  ]
]
  where
    ww : ℕ
    ww = wrap (length rs) (start + k)

    step : next rs ww ≡ wrap (length rs) (start + suc k)
    step = next-wrap rs start k h g

    ends : (wrap (length rs) (start + suc k) == start) ≡ (suc k == length rs)
    ends = back_at_start (length rs) start k h g
