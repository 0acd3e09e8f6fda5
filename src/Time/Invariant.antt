-- ===== src/Time/Invariant.antt =====
-- time::TimeService: the wheel stays in shape.
use coffee.Base.{
  length-set, Option-cases, refl, ℕ, suc, ◌*◌, ◌/◌, ◌<◌, ◌≤◌, ◌≡◌, ◌↔◌, Bool, true, false, ◌&&◌,
  List, [], ◌∷◌, none, some, ok, arith, if◌then◌else◌, ◌==◌, ltb, All, All-append, sym, ap, ◌∙◌,
  subst, find, number_key, Bool-cases, inl, inr,
}
use native.Mathlib.Nat.{div-le_of_le-mul, le-div_iff_mul-le, mul_comm}
use coffee.Time.Service.{
  Place, temporary, at, erase_node, slot, TimeEvent, TimeService, store, tick, activate, cancel,
  unlink,
}
use coffee.Time.Agenda.{
  tick-IsWheel, agenda, wait, Fits, IsWheel, SameWheel, agenda-store, store-SameWheel, agenda-tick,
  renewed,
}
use coffee.Time.Unlinking.{Unlinks, cancel-none, cancel-some, agenda-cancel}

-- The wheel is in shape, it reaches as far as the longest timeout, and it holds only events that
-- fit it.
pub record IsValid (s : TimeService) : Type 0 where
  pub wheel : IsWheel s
  pub resolves : 0 < s.resolution
  pub reaches : s.max_time ≤ s.max_quantum * s.resolution
  pub fits : (k : ℕ) → All (Fits s.resolution s.max_quantum) (agenda s k)

-- An event that activation lets through fits the wheel.
Fits-of_range :
    (e : TimeEvent) (s : TimeService)
    → IsValid s
    → s.resolution ≤ e.timeout
    → e.timeout ≤ s.max_time
    → Fits s.resolution s.max_quantum e
Fits-of_range e s v h k = (
  (le-div_iff_mul-le {k = s.resolution} {x = 1} {y = e.timeout} v.resolves).1 (omega arith),
  div-le_of_le-mul s.resolution (omega (arith, v.reaches, mul_comm s.max_quantum s.resolution)),
)

cons_or {ℓ} :
    {A : Type ℓ} (P : A → Type 0) (b : Bool) (x : A) (xs : List A)
    → P x
    → All P xs
    → All P (if b then x ∷ xs else xs)
cons_or P true x xs h k = (h, k)
cons_or P false x xs h k = k

pub Fits-same :
    {r r' : ℕ} (n n' : ℕ)
    → r' ≡ r
    → n' ≡ n
    → (xs : List TimeEvent) → All (Fits r n) xs
    → All (Fits r' n') xs
Fits-same n n' e f xs h = rw (e, f) h

store-IsValid :
    (now : ℕ) (e : TimeEvent) (s : TimeService)
    → IsValid s
    → Fits s.resolution s.max_quantum e
    → IsValid (store now e s)
store-IsValid now e s v f =
    let same = store-SameWheel now e s in
    record {
      wheel = record {
        inside = omega (arith, same.0, same.1, v.wheel.inside);
        size = omega (arith, same.1, same.5, v.wheel.size);
      };
      resolves = omega (arith, same.2, v.resolves);
      reaches = rw (same.1, same.2, same.3) v.reaches;
      fits = λ k. Fits-same _ _ same.2 same.1 _ (
          subst (All (Fits s.resolution s.max_quantum)) (sym (agenda-store now k e s v.wheel f)) (
            cons_or (Fits s.resolution s.max_quantum) (wait s e == k)
              (record e { init_time = now; end_time = 0 }) (agenda s k) f (v.fits k)));
    }

pub activate-ok :
    (now : ℕ) (e : TimeEvent) (s t : TimeService)
    → s.running ≡ true
    → activate now (some e) s ≡ ok t
    → (t ≡ store now e s)
      × (0 < e.timeout)
      × (s.resolution ≤ e.timeout)
      × (e.timeout ≤ s.max_time)
      × (find s.events e.id ≡ none)
unfolding activate
activate-ok now e s t run done = ground arith

activate_accepts :
    (now : ℕ) (e : TimeEvent) (s : TimeService)
    → s.running ≡ true
    → 0 < e.timeout
    → s.resolution ≤ e.timeout
    → e.timeout ≤ s.max_time
    → find s.events e.id ≡ none
    → activate now (some e) s ≡ ok (store now e s)
unfolding activate
activate_accepts now e s run p q r idle = ground arith

pub activate-agenda :
    (now : ℕ) (e : TimeEvent) (s : TimeService)
    → IsValid s
    → s.running ≡ true
    → ((activate now (some e) s ≡ ok (store now e s)) ↔ (
        (0 < e.timeout)
        × (s.resolution ≤ e.timeout)
        × (e.timeout ≤ s.max_time)
        × (find s.events e.id ≡ none)))
      × ((t : TimeService)
          → activate now (some e) s ≡ ok t
          → IsValid t
            × ((k : ℕ)
                → agenda t k ≡ (
                    if wait s e == k
                    then record e { init_time = now; end_time = 0 } ∷ agenda s k
                    else agenda s k)))
activate-agenda now e s v run = (
  (
    λ done. let c = activate-ok now e s (store now e s) run done in (c.1, c.2, c.3, c.4),
    λ c. activate_accepts now e s run c.0 c.1 c.2 c.3,
  ),
  λ t done.
      let (same, pos, above, below, idle) = activate-ok now e s t run done in
      let f = Fits-of_range e s v above below in
      (
        subst IsValid (sym same) (store-IsValid now e s v f),
        λ k. ap (λ x. agenda x k) same ∙ agenda-store now k e s v.wheel f,
      ),
)

renewed-fits :
    (P : TimeEvent → Type 0) (now r k : ℕ) (es : List TimeEvent)
    → ((e : TimeEvent) → P e → P (record e { init_time = now; end_time = 0 }))
    → All P es
    → All P (renewed now r k es)
unfolding renewed
renewed-fits P now r k [] keep h = tt
renewed-fits P now r k (e ∷ es) keep h =
    All-append P (renewed now r k es) _ (renewed-fits P now r k es keep h.1) (
      cons_or P (e.is_periodical && e.timeout / r == k) (record e { init_time = now; end_time = 0 })
        [] (keep e h.0) tt)

or_nil :
    (P : TimeEvent → Type 0) (b : Bool) (xs : List TimeEvent)
    → All P xs
    → All P (if b then xs else [])
or_nil P true xs h = h
or_nil P false xs h = tt

-- A tick keeps the wheel valid.
pub tick-IsValid : (now : ℕ) (s : TimeService) → IsValid s → IsValid (tick now s).0
tick-IsValid now s v =
    let (w, n, r, m, _) = tick-IsWheel now s v.wheel in
    record {
      wheel = w;
      resolves = omega (arith, r, v.resolves);
      reaches = simp (n, r, m) v.reaches;
      fits = λ k. Fits-same _ _ r n _ (later k);
    }
  where
    F : TimeEvent → Type 0
    F = Fits s.resolution s.max_quantum

    later : (k : ℕ) → All F (agenda (tick now s).0 k)
    later k = subst (All F) (sym (agenda-tick now k s v.wheel (v.fits 0)).1) (
        or_nil F (ltb k s.max_quantum) _ (
          All-append F (renewed now s.resolution (suc k) (agenda s 0)) _
            (renewed-fits F now s.resolution (suc k) (agenda s 0) (λ e h. h) (v.fits 0))
            (v.fits (suc k))))

All-unlink :
    (P : TimeEvent → Type 0) (id : ℕ) (es : List TimeEvent) → All P es → All P (unlink id es)
unfolding unlink
All-unlink P id [] h = tt
All-unlink P id (e ∷ es) h = elim (Bool-cases (e.id == id)) [
  | inl q ↦ rw q h.1
  | inr nq ↦ rw nq (h.0, All-unlink P id es h.1)
]

All-Unlinks :
    (P : TimeEvent → Type 0) (id : ℕ) (es es' : List TimeEvent)
    → Unlinks id es es'
    → All P es
    → All P es'
All-Unlinks P id es es' (inl same) h = subst (All P) (sym same) h
All-Unlinks P id es es' (inr less) h = subst (All P) (sym less) (All-unlink P id es h)

erase_node-SameWheel :
    (place : Place) (id : ℕ) (s : TimeService) → SameWheel s (erase_node place id s)
unfolding erase_node
erase_node-SameWheel (at index) id s = (
  refl,
  refl,
  refl,
  refl,
  refl,
  length-set s.time_table index (unlink id (slot s.time_table index)),
)
erase_node-SameWheel (temporary index) id s =
    ground (arith, length-set s.time_table index (unlink id (slot s.time_table index)))

cancel-SameWheel : (id : ℕ) (s : TimeService) → SameWheel s (cancel id s).0
cancel-SameWheel id s = elim (Option-cases (find s.events id)) [
  | inl n ↦
      subst (λ out. SameWheel s out.0) (sym (cancel-none id s n))
        (refl, refl, refl, refl, refl, refl)
  | inr (place, p) ↦
      subst (λ out. SameWheel s out.0) (sym (cancel-some place id s p))
        (erase_node-SameWheel place id s)
]

-- Cancelling keeps the wheel valid.
pub cancel-IsValid : (id : ℕ) (s : TimeService) → IsValid s → IsValid (cancel id s).0
cancel-IsValid id s v =
    let same = cancel-SameWheel id s in
    record {
      wheel = record {
        inside = omega (arith, same.0, same.1, v.wheel.inside);
        size = omega (arith, same.1, same.5, v.wheel.size);
      };
      resolves = omega (arith, same.2, v.resolves);
      reaches = simp (same.1, same.2, same.3) v.reaches;
      fits = λ k. Fits-same _ _ same.2 same.1 _ (
          All-Unlinks (Fits s.resolution s.max_quantum) id (agenda s k) _ (agenda-cancel id k s)
            (v.fits k));
    }

-- A service that has been stopped activates nothing.
pub activate-running :
    (now : ℕ) (e : TimeEvent) (s t : TimeService)
    → activate now (some e) s ≡ ok t
    → s.running ≡ true
unfolding activate
activate-running now e s t h = ground arith
