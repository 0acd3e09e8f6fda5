-- ===== src/Time/Delivery.antt =====
-- time::TimeService: when an event is notified, whatever else happens in between.
use coffee.Base.{
  ℕ, suc, ◌+◌, ◌≤◌, ◌≡◌, ◌≢◌, refl, Bool, true, false, List, [], ◌∷◌, ◌++◌, map, some, Result, ok,
  raise, arith, if◌then◌else◌, ◌==◌, All, sym, ap, ◌∙◌, subst, ◌⊎◌, inl, inr, ℕ_discrete, dec_lt,
  lt→ltb,
}
use coffee.Time.Service.{TimeEvent, TimeService, Error, tick, activate, cancel, unlink}
use coffee.Time.Agenda.{agenda_beyond, agenda, wait, finished, agenda-tick, renewed}
use coffee.Time.Unlinking.{agenda-cancel}
use coffee.Time.Single.{
  amount, amount-append, amount-finished, IsAbsent, IsSingle, activated-IsSingle, tick-IsSingle,
  activate-IsSingle, cancel-IsSingle,
}
use coffee.Time.Invariant.{IsValid, tick-IsValid, activate-agenda, cancel-IsValid, activate-running}

-- The event stands in the list.
abbrev pub Has : TimeEvent → List TimeEvent → Type 0
Has e [] = ⊥
Has e (x ∷ xs) = (x ≡ e) ⊎ Has e xs

Has-append : (e : TimeEvent) (xs ys : List TimeEvent) → Has e ys → Has e (xs ++ ys)
Has-append e [] ys h = h
Has-append e (x ∷ xs) ys h = inr (Has-append e xs ys h)

Has-map :
    (e : TimeEvent) (f : TimeEvent → TimeEvent) (xs : List TimeEvent)
    → Has e xs
    → Has (f e) (map f xs)
Has-map e f [] h = h
Has-map e f (x ∷ xs) (inl p) = inl (ap f p)
Has-map e f (x ∷ xs) (inr h) = inr (Has-map e f xs h)

Has-unlink :
    (e : TimeEvent) (id : ℕ) (xs : List TimeEvent) → e.id ≢ id → Has e xs → Has e (unlink id xs)
unfolding unlink
Has-unlink e id [] n h = h
Has-unlink e id (x ∷ xs) n (inl p) = elim (ℕ_discrete x.id id) [
  | yes q ↦ absurd (n (ap (λ (y : TimeEvent). y.id) (sym p) ∙ q))
  | no nq ↦ ground arith
]
Has-unlink e id (x ∷ xs) n (inr h) = ground (arith, Has-unlink e id xs n h)

Has-cons :
    (e x : TimeEvent) (b : Bool) (xs : List TimeEvent) → Has e xs → Has e (if b then x ∷ xs else xs)
Has-cons e x true xs h = inr h
Has-cons e x false xs h = h

-- What clients and the consumer thread do, in the order in which they take the mutex. The first
-- argument of a tick and of an activation is the time.
pub data Step : Type 0 where
  ticks : ℕ → Step
  activates : ℕ → TimeEvent → Step
  cancels : ℕ → Step

after : TimeService → Result Error TimeService → TimeService
after s (ok t) = t
after s (raise e) = s

unfoldable pub step : Step → TimeService → TimeService
unfolding after
step (ticks now) s = (tick now s).0
step (activates now e) s = after s (activate now (some e) s)
step (cancels id) s = (cancel id s).0

unfoldable pub run : List Step → TimeService → TimeService
run [] s = s
run (st ∷ sts) s = run sts (step st s)

-- The events that the ticks of the steps notify, in order.
unfoldable pub notified : List Step → TimeService → List TimeEvent
notified [] s = []
notified (ticks now ∷ sts) s = (tick now s).1 ++ notified sts (tick now s).0
notified (activates now e ∷ sts) s = notified sts (step (activates now e) s)
notified (cancels id ∷ sts) s = notified sts (step (cancels id) s)

abbrev pub count_ticks : List Step → ℕ
count_ticks [] = 0
count_ticks (ticks now ∷ sts) = suc (count_ticks sts)
count_ticks (activates now e ∷ sts) = count_ticks sts
count_ticks (cancels id ∷ sts) = count_ticks sts

-- Nobody cancels the event.
abbrev pub Keeps : ℕ → Step → Type 0
Keeps id (cancels other) = id ≢ other
Keeps id (ticks now) = Unit
Keeps id (activates now e) = Unit

waits_within : (e : TimeEvent) (k : ℕ) (s : TimeService) → Has e (agenda s k) → k ≤ s.max_quantum
waits_within e k s h = elim (dec_lt s.max_quantum k) [
  | yes far ↦ absurd (subst (Has e) (agenda_beyond s k far) h)
  | no near ↦ omega arith
]

tick-Has :
    (e : TimeEvent) (now k : ℕ) (s : TimeService)
    → IsValid s
    → Has e (agenda s (suc k))
    → Has e (agenda (tick now s).0 k)
tick-Has e now k s v h =
    let near = waits_within e (suc k) s h in
    let moved = (agenda-tick now k s v.wheel (v.fits 0)).1 in
    subst (Has e) (sym (moved ∙ ground (arith, lt→ltb k s.max_quantum near)))
      (Has-append e (renewed now s.resolution (suc k) (agenda s 0)) (agenda s (suc k)) h)

activate-step :
    (now : ℕ) (x : TimeEvent) (s : TimeService) (r : Result Error TimeService)
    → IsValid s
    → activate now (some x) s ≡ r
    → IsValid (after s r)
      × ((e : TimeEvent) (k : ℕ) → Has e (agenda s k) → Has e (agenda (after s r) k))
unfolding after
activate-step now x s (raise _) v h = (v, λ e k p. p)
activate-step now x s (ok t) v h =
    let (valid, moved) = (activate-agenda now x s v (activate-running now x s t h)).1 t h in
    (valid, λ e k p. subst (Has e) (sym (moved k)) (Has-cons e _ (wait s x == k) (agenda s k) p))

cancel-Has :
    (e : TimeEvent) (id k : ℕ) (s : TimeService)
    → e.id ≢ id
    → Has e (agenda s k)
    → Has e (agenda (cancel id s).0 k)
cancel-Has e id k s n h = elim (agenda-cancel id k s) [
  | inl same ↦ subst (Has e) (sym same) h
  | inr less ↦ subst (Has e) (sym less) (Has-unlink e id (agenda s k) n h)
]

-- Every step keeps the wheel valid.
pub step-IsValid : (st : Step) (s : TimeService) → IsValid s → IsValid (step st s)
unfolding step
step-IsValid (ticks now) s v = tick-IsValid now s v
step-IsValid (activates now x) s v = (activate-step now x s _ v refl).0
step-IsValid (cancels id) s v = cancel-IsValid id s v

pub run-IsValid : (sts : List Step) (s : TimeService) → IsValid s → IsValid (run sts s)
unfolding run
run-IsValid [] s v = v
run-IsValid (st ∷ sts) s v = run-IsValid sts (step st s) (step-IsValid st s v)

-- As long as nobody cancels it, an event comes nearer by one with each tick, and stays where it is
-- in every other step.
run-Has :
    (e : TimeEvent) (sts : List Step) (j : ℕ) (s : TimeService)
    → IsValid s
    → All (Keeps e.id) sts
    → Has e (agenda s (count_ticks sts + j))
    → Has e (agenda (run sts s) j)
unfolding run step
run-Has e [] j s v k h = subst (λ t. Has e (agenda s t)) {x = 0 + j} {y = j} (omega arith) h
run-Has e (ticks now ∷ sts) j s v k h = run-Has e sts j _ (tick-IsValid now s v) k.1 (
    tick-Has e now (count_ticks sts + j) s v (
      subst (λ t. Has e (agenda s t)) {x = suc (count_ticks sts) + j}
        {y = suc (count_ticks sts + j)} (omega arith) h))
run-Has e (activates now x ∷ sts) j s v k h =
    let (valid, keeps) = activate-step now x s _ v refl in
    run-Has e sts j _ valid k.1 (keeps e (count_ticks sts + j) h)
run-Has e (cancels id ∷ sts) j s v k h =
    run-Has e sts j _ (cancel-IsValid id s v) k.1 (cancel-Has e id (count_ticks sts + j) s k.0 h)

after-IsSingle :
    (id j now : ℕ) (x : TimeEvent) (s : TimeService) (r : Result Error TimeService)
    → IsValid s
    → activate now (some x) s ≡ r
    → IsSingle id j s
    → IsSingle id j (after s r)
unfolding after
after-IsSingle id j now x s (raise _) v h i = i
after-IsSingle id j now x s (ok t) v h i = activate-IsSingle id j now x s t v h i

-- As long as nobody cancels it, an event that is active with one node keeps one node, and is not
-- notified before its tick.
run-IsSingle :
    (id : ℕ) (sts : List Step) (j : ℕ) (s : TimeService)
    → IsValid s
    → All (Keeps id) sts
    → IsSingle id (count_ticks sts + j) s
    → IsSingle id j (run sts s) × (amount id (notified sts s) ≡ 0)
unfolding run step notified amount
run-IsSingle id [] j s v k i =
    (subst (λ n. IsSingle id n s) {x = 0 + j} {y = j} (omega arith) i, refl)
run-IsSingle id (ticks now ∷ sts) j s v k i =
    let (one, silent) = tick-IsSingle id (count_ticks sts + j) now s v (
      subst (λ n. IsSingle id n s) {x = suc (count_ticks sts) + j} {y = suc (count_ticks sts + j)}
        (omega arith) i) in
    let (last, none_later) = run-IsSingle id sts j _ (tick-IsValid now s v) k.1 one in
    (
      last,
      amount-append id (tick now s).1 (notified sts (tick now s).0)
          ∙ omega (arith, silent, none_later),
    )
run-IsSingle id (activates now x ∷ sts) j s v k i =
    run-IsSingle id sts j _ (activate-step now x s _ v refl).0 k.1
      (after-IsSingle id (count_ticks sts + j) now x s _ v refl i)
run-IsSingle id (cancels other ∷ sts) j s v k i =
    run-IsSingle id sts j _ (cancel-IsValid other s v) k.1
      (cancel-IsSingle id (count_ticks sts + j) other s k.0 i)

if_same : (k : ℕ) (xs ys : List TimeEvent) → (if k == k then xs else ys) ≡ xs
if_same k xs ys = ground arith

-- An event of which the wheel holds no node is activated on a valid service. It is notified exactly
-- once by the tick that comes after timeout / resolution more ticks, and by none of the ticks before,
-- whatever is activated or cancelled in between, as long as nobody cancels the event itself and the
-- service is not stopped. It is notified with the time of its activation and the time of that tick.
pub notified_on_time :
    (e : TimeEvent) (start now : ℕ) (sts : List Step) (s t : TimeService)
    → IsValid s
    → IsAbsent e.id s
    → activate start (some e) s ≡ ok t
    → All (Keeps e.id) sts
    → count_ticks sts ≡ wait s e
    → Has (record e { init_time = start; end_time = now }) (tick now (run sts t)).1
      × (amount e.id (tick now (run sts t)).1 ≡ 1)
      × (amount e.id (notified sts t) ≡ 0)
notified_on_time e start now sts s t v absent done keep count =
    let e' : TimeEvent = record e { init_time = start; end_time = 0 } in
    let (valid, moved) =
      (activate-agenda start e s v (activate-running start e s t done)).1 t done in
    let first : agenda t (wait s e) ≡ e' ∷ agenda s (wait s e) =
      moved (wait s e) ∙ if_same (wait s e) _ _ in
    let placed : Has e' (agenda t (wait s e)) = subst (Has e') (sym first) (inl refl) in
    let last = run-IsValid sts t valid in
    let told : (tick now (run sts t)).1 ≡ map (finished now) (agenda (run sts t) 0) =
      (agenda-tick now 0 (run sts t) last.wheel (last.fits 0)).0 in
    let waits : wait s e ≡ count_ticks sts + 0 = omega (arith, count) in
    let due : Has e' (agenda (run sts t) 0) =
      run-Has e' sts 0 t valid keep (subst (λ k. Has e' (agenda t k)) waits placed) in
    let (single, silent) =
      run-IsSingle e.id sts 0 t valid keep
        (subst (λ k. IsSingle e.id k t) waits (activated-IsSingle start e s t v absent done)) in
    (
      subst (Has (finished now e')) (sym told)
          (Has-map e' (finished now) (agenda (run sts t) 0) due),
      ap (amount e.id) told
          ∙ (amount-finished e.id now (agenda (run sts t) 0) ∙ (single.only 0 ∙ ground arith)),
      silent,
    )
