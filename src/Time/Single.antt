-- ===== src/Time/Single.antt =====
-- time::TimeService: how many nodes of the wheel an event has.
use coffee.Base.{
  ◌%◌, ℕ, suc, ◌+◌, ◌/◌, ◌≡◌, ◌≢◌, refl, ◌&&◌, List, [], ◌∷◌, ◌++◌, map, none, some, ok, arith,
  if◌then◌else◌, ◌==◌, ==_iff, ltb, sym, ap, ◌∙◌, inl, inr, find, erase, assign, number_key,
  find-erase, find-assign, same_refl, Bool-cases, Option-cases,
}
use coffee.Time.Service.{
  TimeEvent, TimeService, Place, temporary, at, slot, store, fire, tick, activate, cancel, unlink,
}
use coffee.Time.Agenda.{
  agenda-zero, agenda, wait, agenda-tick, agenda_beyond, finished, renewed, stored,
}
use coffee.Time.Unlinking.{Unlinks, agenda-cancel, cancel-none, cancel-some}
use coffee.Time.Invariant.{IsValid, activate-agenda, activate-running, activate-ok}

-- How many nodes of the list hold the event.
unfoldable pub amount : ℕ → List TimeEvent → ℕ
amount id [] = 0
amount id (e ∷ es) = (if e.id == id then 1 else 0) + amount id es

pub amount-append :
    (id : ℕ) (xs ys : List TimeEvent) → amount id (xs ++ ys) ≡ amount id xs + amount id ys
unfolding amount
amount-append id [] ys = omega arith
amount-append id (x ∷ xs) ys = omega (arith, amount-append id xs ys)

pub amount-finished :
    (id now : ℕ) (es : List TimeEvent) → amount id (map (finished now) es) ≡ amount id es
unfolding amount
amount-finished id now [] = refl
amount-finished id now (e ∷ es) = omega (arith, amount-finished id now es)

-- Events that are not the given one are stored again.
amount-renewed :
    (id now resolution k : ℕ) (es : List TimeEvent)
    → amount id es ≡ 0
    → amount id (renewed now resolution k es) ≡ 0
unfolding amount renewed
amount-renewed id now resolution k [] h = refl
amount-renewed id now resolution k (e ∷ es) h =
    let others = amount-renewed id now resolution k es (omega (arith, h)) in
    ground (
      arith,
      others,
      amount-append id (renewed now resolution k es)
          (if e.is_periodical && e.timeout / resolution == k then stored now e ∷ [] else []),
    )

amount-unlink :
    (id other : ℕ) (es : List TimeEvent) → id ≢ other → amount id (unlink other es) ≡ amount id es
unfolding amount unlink
amount-unlink id other [] n = refl
amount-unlink id other (e ∷ es) n =
    ground (arith, amount-unlink id other es n, ==_iff e.id id, ==_iff e.id other)

amount-Unlinks :
    (id other : ℕ) (es es' : List TimeEvent)
    → id ≢ other
    → Unlinks other es es'
    → amount id es' ≡ amount id es
amount-Unlinks id other es es' n (inl same) = ap (amount id) same
amount-Unlinks id other es es' n (inr less) = ap (amount id) less ∙ amount-unlink id other es n

-- No node holds the event: it is not waiting, and none is left from before a stop of the service.
unfoldable pub IsAbsent : ℕ → TimeService → Type 0
IsAbsent id s = (k : ℕ) → amount id (agenda s k) ≡ 0

-- The event is active, and one node holds it, which the `j`-th tick from now notifies.
pub record IsSingle (id j : ℕ) (s : TimeService) : Type 0 where
  pub active : find s.events id ≢ none
  pub only : (k : ℕ) → amount id (agenda s k) ≡ (if k == j then 1 else 0)

amount-tick :
    (id now k : ℕ) (s : TimeService)
    → IsValid s
    → amount id (agenda s 0) ≡ 0
    → amount id (agenda (tick now s).0 k) ≡ amount id (agenda s (suc k))
unfolding amount
amount-tick id now k s v none_due =
    let moved = (agenda-tick now k s v.wheel (v.fits 0)).1 in
    let fresh = amount-renewed id now s.resolution (suc k) (agenda s 0) none_due in
    let sum = amount-append id (renewed now s.resolution (suc k) (agenda s 0)) (agenda s (suc k)) in
    ap (amount id) moved ∙ elim (Bool-cases (ltb k s.max_quantum)) [
      | inl near ↦ rw near (omega (arith, sum, fresh))
      | inr far ↦ rw (far, agenda_beyond s (suc k) (ground (arith, far))) refl
    ]

find-others :
    (dict : List (ℕ × Place)) (id other : ℕ) (place : Place)
    → id ≢ other
    → (find (assign dict other place) id ≡ find dict id)
      × (find (erase dict other) id ≡ find dict id)
find-others dict id other place n = (
  ground (arith, find-assign dict other id place, number_key.same_iff id other),
  ground (
    arith,
    find-erase dict other id,
    number_key.same_iff other id,
    λ (h : other ≡ id). n (sym h),
  ),
)

find-store :
    (id now : ℕ) (e : TimeEvent) (s : TimeService)
    → id ≢ e.id
    → find (store now e s).events id ≡ find s.events id
unfolding store
find-store id now e s n =
    let index = (s.current_quantum + e.timeout / s.resolution) % s.max_quantum in
    elim (Bool-cases (index == s.current_quantum)) [
      | inl h ↦ ground (arith, h, (find-others s.events id e.id (temporary index) n).0)
      | inr h ↦ ground (arith, h, (find-others s.events id e.id (at index) n).0)
    ]

find-fire :
    (id now : ℕ) (es : List TimeEvent) (s : TimeService)
    → amount id es ≡ 0
    → find (fire now es s).events id ≡ find s.events id
unfolding amount fire
find-fire id now [] s h = refl
find-fire id now (e ∷ es) s h =
    let n : id ≢ e.id = λ q. ground (arith, h) in
    let s' : TimeService = record s { events = erase s.events e.id } in
    let t : TimeService = if e.is_periodical then store now e s' else s' in
    ground (
      arith,
      find-fire id now es t (omega (arith, h)),
      find-store id now e s' n,
      (find-others s.events id e.id (at 0) n).1,
    )

find-tick :
    (id now : ℕ) (s : TimeService)
    → amount id (slot s.time_table s.current_quantum) ≡ 0
    → find (tick now s).0.events id ≡ find s.events id
unfolding tick
find-tick id now s h = find-fire id now (slot s.time_table s.current_quantum) s h

store-active : (now : ℕ) (e : TimeEvent) (s : TimeService) → find (store now e s).events e.id ≢ none
unfolding store
store-active now e s q =
    let index = (s.current_quantum + e.timeout / s.resolution) % s.max_quantum in
    elim (Bool-cases (index == s.current_quantum)) [
      | inl h ↦
          ground (arith, h, q, find-assign s.events e.id e.id (temporary index), same_refl e.id)
      | inr h ↦ ground (arith, h, q, find-assign s.events e.id e.id (at index), same_refl e.id)
    ]

find-cancel :
    (id other : ℕ) (s : TimeService)
    → id ≢ other
    → find (cancel other s).0.events id ≡ find s.events id
find-cancel id other s n = elim (Option-cases (find s.events other)) [
  | inl q ↦ ap (λ o. find o.0.events id) (cancel-none other s q)
  | inr (place, q) ↦
      ap (λ o. find o.0.events id) (cancel-some place other s q)
      ∙ (find-others s.events id other place n).1
]

pub tick-IsSingle :
    (id j now : ℕ) (s : TimeService)
    → IsValid s
    → IsSingle id (suc j) s
    → IsSingle id j (tick now s).0 × (amount id (tick now s).1 ≡ 0)
tick-IsSingle id j now s v i =
    let none_due : amount id (agenda s 0) ≡ 0 = i.only 0 ∙ ground arith in
    let due = agenda-zero s v.wheel in
    (
      record {
        active = λ n. i.active (sym (find-tick id now s (ap (amount id) (sym due) ∙ none_due)) ∙ n);
        only = λ k. amount-tick id now k s v none_due ∙ (i.only (suc k) ∙ ground arith);
      },
      ap (amount id) (agenda-tick now 0 s v.wheel (v.fits 0)).0
          ∙ (amount-finished id now (agenda s 0) ∙ none_due),
    )

pub activate-IsSingle :
    (id j now : ℕ) (e : TimeEvent) (s t : TimeService)
    → IsValid s
    → activate now (some e) s ≡ ok t
    → IsSingle id j s
    → IsSingle id j t
unfolding amount
activate-IsSingle id j now e s t v h i =
    let running = activate-running now e s t h in
    let (same, _, _, _, idle) = activate-ok now e s t running h in
    let moved = ((activate-agenda now e s v running).1 t h).1 in
    let n : id ≢ e.id = λ q. i.active (ap (find s.events) q ∙ idle) in
    record {
      active = λ q. i.active (sym (ap (λ u. find u.events id) same ∙ find-store id now e s n) ∙ q);
      only = λ k. ap (amount id) (moved k) ∙ ground (arith, i.only k, n);
    }

-- An event that is activated has one node, if the wheel held none.
pub activated-IsSingle :
    (now : ℕ) (e : TimeEvent) (s t : TimeService)
    → IsValid s
    → IsAbsent e.id s
    → activate now (some e) s ≡ ok t
    → IsSingle e.id (wait s e) t
unfolding amount IsAbsent
activated-IsSingle now e s t v absent h =
    let running = activate-running now e s t h in
    let same = (activate-ok now e s t running h).0 in
    let moved = ((activate-agenda now e s v running).1 t h).1 in
    record {
      active = λ q. store-active now e s (sym (ap (λ u. find u.events e.id) same) ∙ q);
      only = λ k. ap (amount e.id) (moved k) ∙ ground (arith, absent k);
    }

pub cancel-IsSingle :
    (id j other : ℕ) (s : TimeService)
    → id ≢ other
    → IsSingle id j s
    → IsSingle id j (cancel other s).0
cancel-IsSingle id j other s n i = record {
  active = λ q. i.active (sym (find-cancel id other s n) ∙ q);
  only = λ k. amount-Unlinks id other (agenda s k) _ n (agenda-cancel other k s) ∙ i.only k;
}
