-- ===== src/Balance/RoundRobin.antt =====
-- balance::StrategyRoundRobin: source/src/balance/StrategyRoundRobin.cc and its header. The state
-- is `m_position`, `none` until it is valid. The list does not grow between two calls here: the
-- source keeps an iterator into a vector, which growth would invalidate.
use coffee.Base.{
  ℕ, zero, suc, ◌+◌, ◌-◌, ◌<◌, ◌≤◌, ◌≡◌, true, List, Option, none, some, Result, ok, raise, arith,
  length, if◌then◌else◌, ◌==◌, ℕ_discrete, subst, sym, dec_lt, leb, inl, inr, ap, ◌⊎◌, ◌∙◌,
}
use coffee.Balance.ResourceList.{Resource, Error, empty_list, no_available, next}
use coffee.Balance.Search.{search, Chosen, wrap, available_at, next-wrap}
use coffee.Balance.Indexed.{search_round}

-- Where the search begins: the stored position, or the first one.
unfoldable pub begin_at : Option ℕ → ℕ
begin_at none = 0
begin_at (some p) = p

unfoldable pub finish : List Resource → ℕ → Result Error ℕ → Option ℕ × Result Error ℕ
finish rs start (ok ii) = (some (next rs ii), ok ii)
finish rs start (raise e) = (some start, raise e)

unfoldable pub apply : List Resource → Option ℕ → Option ℕ × Result Error ℕ
apply rs position =
    let start = begin_at position in
    if start == length rs
    then (some start, raise empty_list)
    else finish rs start (search (length rs) rs start start)

-- The strategy after `k` calls.
unfoldable pub calls : ℕ → List Resource → Option ℕ → Option ℕ
calls zero rs position = position
calls (suc k) rs position = calls k rs (apply rs position).0

finish_inside :
    (rs : List Resource) (start : ℕ) (r : Result Error ℕ)
    → Chosen rs start 0 r
    → start < length rs
    → (Chosen rs start 0 (finish rs start r).1) × (begin_at (finish rs start r).0 < length rs)
unfolding finish begin_at next
finish_inside rs start (ok ii) c h = (c, ground (arith, c.2, c.3))
finish_inside rs start (raise e) c h = (c, h)

apply-search :
    (rs : List Resource) (position : Option ℕ)
    → begin_at position < length rs
    → apply rs position
      ≡ finish rs
          (begin_at position)
          (search (length rs) rs (begin_at position) (begin_at position))
unfolding apply
apply-search rs position h = ground arith

-- From a position inside the list, a call serves the first available resource going round once
-- from there, or raises the exception for no available resource if all are unavailable, and leaves
-- a position inside the list.
pub apply-Chosen_inside :
    (rs : List Resource) (position : Option ℕ)
    → begin_at position < length rs
    → (Chosen rs (begin_at position) 0 (apply rs position).1)
      × (begin_at (apply rs position).0 < length rs)
apply-Chosen_inside rs position h =
    let start = begin_at position in
    subst (λ t. (Chosen rs start 0 t.1) × (begin_at t.0 < length rs))
      (sym (apply-search rs position h)) (finish_inside rs start _ (search_round rs start h) h)

-- One call, on its way to an available resource `k` steps ahead: it serves that resource, or one
-- before it, and then the resource is nearer.
pub Serves : List Resource → ℕ → ℕ → Option ℕ × Result Error ℕ → Type 0
Serves rs start k (position, r) =
    (r ≡ ok (wrap (length rs) (start + k)))
    ⊎ ((j : ℕ) × (j < k) × (position ≡ some (wrap (length rs) (start + suc j))))

finish-Serves :
    (rs : List Resource) (start k : ℕ) (r : Result Error ℕ)
    → start < length rs
    → k < length rs
    → available_at rs (wrap (length rs) (start + k)) ≡ true
    → Chosen rs start 0 r
    → Serves rs start k (finish rs start r)
unfolding finish Serves
finish-Serves rs start k (ok ii) h g a (j, le, lt, e, free, before) = elim (ℕ_discrete j k) [
  | yes q ↦ inl (ground arith)
  | no nq ↦ elim (dec_lt j k) [
    | yes less ↦ inr (j, less, ap some (ap (next rs) e ∙ next-wrap rs start j h lt))
    | no more ↦ absurd (ground (arith, before k (omega arith) (omega arith)))
  ]
]
finish-Serves rs start k (raise no_available) h g a c = absurd (ground (arith, c k (omega arith) g))
finish-Serves rs start k (raise empty_list) h g a c = absurd (omega arith)
finish-Serves rs start k (raise _) h g a c = elim c [ ]

apply-Serves :
    (rs : List Resource) (position : Option ℕ) (k : ℕ)
    → begin_at position < length rs
    → k < length rs
    → available_at rs (wrap (length rs) (begin_at position + k)) ≡ true
    → Serves rs (begin_at position) k (apply rs position)
apply-Serves rs position k h g a =
    let start = begin_at position in
    subst (Serves rs start k) (sym (apply-search rs position h))
      (finish-Serves rs start k _ h g a (search_round rs start h))

pub Served : List Resource → Option ℕ → ℕ → ℕ → Type 0
Served rs position k t = (m : ℕ) × (m ≤ k) × ((apply rs (calls m rs position)).1 ≡ ok t)

nearer :
    (n start k j : ℕ)
    → start < n
    → k < n
    → j < k
    → wrap n (wrap n (start + suc j) + (k - suc j)) ≡ wrap n (start + k)
nearer n start k j h g l = ground arith

Served-after :
    (rs : List Resource) (position : Option ℕ) (k j t : ℕ)
    → j < k
    → Served rs (apply rs position).0 (k - suc j) t
    → Served rs position k t
unfolding Served calls
Served-after rs position k j t l (m, le, e) = (suc m, omega arith, e)

-- One call, and what is left of the way if it served an earlier resource.
Served-step :
    (rs : List Resource) (position : Option ℕ) (k t : ℕ)
    → begin_at position < length rs
    → k < length rs
    → wrap (length rs) (begin_at position + k) ≡ t
    → available_at rs t ≡ true
    → ((apply rs position).1 ≡ ok t)
      ⊎ ((k' : ℕ) × (k' < k)
          × (begin_at (apply rs position).0 < length rs)
          × (wrap (length rs) (begin_at (apply rs position).0 + k') ≡ t)
          × (Served rs (apply rs position).0 k' t → Served rs position k t))
unfolding Serves begin_at
Served-step rs position k t h g e a =
    elim (apply-Serves rs position k h g (subst (λ x. available_at rs x ≡ true) (sym e) a)) [
      | inl now ↦ inl (now ∙ ap ok e)
      | inr (j, l, moved) ↦
          let at : begin_at (apply rs position).0 ≡ wrap (length rs) (begin_at position + suc j) =
            ap begin_at moved in
          inr (
            k - suc j,
            omega arith,
            rw at (ground arith),
            rw at (nearer (length rs) (begin_at position) k j h g l ∙ e),
            Served-after rs position k j t l,
          )
    ]

Served-within :
    (bound k : ℕ) (rs : List Resource) (position : Option ℕ) (t : ℕ)
    → k ≤ bound
    → begin_at position < length rs
    → k < length rs
    → wrap (length rs) (begin_at position + k) ≡ t
    → available_at rs t ≡ true
    → Served rs position k t
unfolding Served calls
Served-within zero k rs position t b h g e a = elim (Served-step rs position k t h g e a) [
  | inl now ↦ (0, omega arith, now)
  | inr (k', l, inside, same, carry) ↦ absurd (omega arith)
]
Served-within (suc bound) k rs position t b h g e a = elim (Served-step rs position k t h g e a) [
  | inl now ↦ (0, omega arith, now)
  | inr (k', l, inside, same, carry) ↦
      carry (
        Served-within bound k' rs (apply rs position).0 t (omega arith) inside (omega arith) same a)
]

-- No resource starves: from a position inside the list, each available resource `t` is served by
-- one of the next calls, before `length rs` calls have been made, as long as no availability
-- changes.
pub apply_fair :
    (rs : List Resource) (position : Option ℕ) (t : ℕ)
    → begin_at position < length rs
    → t < length rs
    → available_at rs t ≡ true
    → (m : ℕ) × (m < length rs) × ((apply rs (calls m rs position)).1 ≡ ok t)
unfolding Served
apply_fair rs position t h g a =
    let n = length rs in
    let p = begin_at position in
    let k : ℕ = if leb p t then t - p else t + n - p in
    let (m, le, e) =
      Served-within k k rs position t (omega arith) h (ground arith) (ground arith) a in
    (m, ground arith, e)
