-- ===== src/Time/Agenda.antt =====
-- The time wheel seen as an agenda: for each number of ticks to wait, the events that are due then.
use coffee.Base.{
  ℕ, suc, ◌+◌, ◌-◌, ◌/◌, ◌%◌, ◌<◌, ◌≤◌, ◌≡◌, refl, ◌&&◌, List, [], ◌∷◌, ◌++◌, map, arith, length,
  get_elem?, set, if◌then◌else◌, ◌==◌, ltb, All, append_assoc, sym, ap, ◌∙◌, subst, erase,
  number_key, get_elem?-set_self, get_elem?-set_ne, length-set, ℕ_discrete, dec_lt,
}
use native.Mathlib.Nat.{mod-eq_of_lt, mod-eq-sub-mod}
use coffee.Time.Service.{TimeEvent, TimeService, slot, store, fire, tick}

-- How many ticks an event waits after the one that is next.
abbrev pub wait : TimeService → TimeEvent → ℕ
wait s e = e.timeout / s.resolution

abbrev pub wrap : ℕ → ℕ → ℕ
wrap n k = if ltb k n then k else k - n

-- The events that the `k`-th tick from now notifies, counting from 0.
unfoldable pub agenda : TimeService → ℕ → List TimeEvent
agenda s k =
    if k == s.max_quantum
    then s.temporary_quantum
    else if ltb k s.max_quantum
    then slot s.time_table (wrap s.max_quantum (s.current_quantum + k))
    else []

-- An event that the wheel can hold.
abbrev pub Fits : ℕ → ℕ → TimeEvent → Type 0
Fits resolution max_quantum e =
    (0 < e.timeout / resolution) × (e.timeout / resolution ≤ max_quantum)

-- The wheel's shape.
pub record IsWheel (s : TimeService) : Type 0 where
  pub inside : s.current_quantum < s.max_quantum
  pub size : length s.time_table ≡ s.max_quantum

pub slot-set :
    (table : List (List TimeEvent)) (i j : ℕ) (q : List TimeEvent)
    → i < length table
    → slot (set table i q) j ≡ (if i == j then q else slot table j)
slot-set table i j q h = elim (ℕ_discrete i j) [
  | yes e ↦ ground (arith, get_elem?-set_self table i q h, ap (get_elem? (set table i q)) e)
  | no ne ↦ ground (arith, get_elem?-set_ne table i j q ne)
]

pub mod-wrap : (c k n : ℕ) → c < n → k ≤ n → (c + k) % n ≡ wrap n (c + k)
mod-wrap c k n h g = elim (dec_lt (c + k) n) [
  | yes l ↦ mod-eq_of_lt l ∙ ground arith
  | no m ↦
      mod-eq-sub-mod {n = c + k} {m = n} (omega arith)
      ∙ mod-eq_of_lt {n = c + k - n} {m = n} (omega arith)
      ∙ ground arith
]

abbrev pub stored : ℕ → TimeEvent → TimeEvent
stored now e = record e { init_time = now; end_time = 0 }

-- Storing puts the event first among those that wait as long as it does.
pub agenda-store :
    (now k : ℕ) (e : TimeEvent) (s : TimeService)
    → IsWheel s
    → Fits s.resolution s.max_quantum e
    → agenda (store now e s) k ≡ (if wait s e == k then stored now e ∷ agenda s k else agenda s k)
unfolding agenda store
agenda-store now k e s w f =
    let q = wait s e in
    let c = s.current_quantum in
    let n = s.max_quantum in
    ground (
      arith,
      mod-wrap c q n w.inside f.1,
      slot-set s.time_table (wrap n (c + q)) (wrap n (c + k))
          (stored now e ∷ slot s.time_table (wrap n (c + q))),
    )

-- What storing leaves alone.
abbrev pub SameWheel : TimeService → TimeService → Type 0
SameWheel s t =
    (t.current_quantum ≡ s.current_quantum)
    × (t.max_quantum ≡ s.max_quantum)
    × (t.resolution ≡ s.resolution)
    × (t.max_time ≡ s.max_time)
    × (t.running ≡ s.running)
    × (length t.time_table ≡ length s.time_table)

pub store-SameWheel : (now : ℕ) (e : TimeEvent) (s : TimeService) → SameWheel s (store now e s)
unfolding store
store-SameWheel now e s = ground (
  arith,
  length-set s.time_table ((s.current_quantum + e.timeout / s.resolution) % s.max_quantum) (
      stored now e
      ∷ slot s.time_table ((s.current_quantum + e.timeout / s.resolution) % s.max_quantum)),
)

pub fire-SameWheel : (now : ℕ) (es : List TimeEvent) (s : TimeService) → SameWheel s (fire now es s)
unfolding fire
fire-SameWheel now [] s = (refl, refl, refl, refl, refl, refl)
fire-SameWheel now (e ∷ es) s =
    let s' : TimeService = record s { events = erase s.events e.id } in
    let t : TimeService = if e.is_periodical then store now e s' else s' in
    ground (arith, store-SameWheel now e s', fire-SameWheel now es t)

-- The clocks among the events that fire, as they are stored again, those with wait `k`.
unfoldable pub renewed : ℕ → ℕ → ℕ → List TimeEvent → List TimeEvent
renewed now resolution k [] = []
renewed now resolution k (e ∷ es) =
    renewed now resolution k es
    ++ (if e.is_periodical && e.timeout / resolution == k then stored now e ∷ [] else [])

agenda-events :
    (s : TimeService) (id k : ℕ) → agenda (record s { events = erase s.events id }) k ≡ agenda s k
unfolding agenda
agenda-events s id k = refl

-- One event of the loop in `fire`.
abbrev once : ℕ → TimeEvent → TimeService → TimeService
once now e s =
    let s' : TimeService = record s { events = erase s.events e.id } in
    if e.is_periodical then store now e s' else s'

once-SameWheel : (now : ℕ) (e : TimeEvent) (s : TimeService) → SameWheel s (once now e s)
once-SameWheel now e s =
    ground (arith, store-SameWheel now e (record s { events = erase s.events e.id }))

once-IsWheel : (now : ℕ) (e : TimeEvent) (s : TimeService) → IsWheel s → IsWheel (once now e s)
once-IsWheel now e s w =
    let f = once-SameWheel now e s in
    record { inside = omega (arith, f.0, f.1, w.inside); size = omega (arith, f.1, f.5, w.size) }

agenda-once :
    (now k r n : ℕ) (e : TimeEvent) (s : TimeService)
    → IsWheel s
    → s.resolution ≡ r
    → s.max_quantum ≡ n
    → Fits r n e
    → agenda (once now e s) k
      ≡ (if e.is_periodical && e.timeout / r == k then stored now e ∷ [] else []) ++ agenda s k
agenda-once now k r n e s w hr hn f =
    let s' : TimeService = record s { events = erase s.events e.id } in
    let w' : IsWheel s' = record { inside = w.inside; size = w.size } in
    ground (arith, agenda-store now k e s' w', agenda-events s e.id k, hr, hn)

agenda-fire :
    (now k r n : ℕ) (es : List TimeEvent) (s : TimeService)
    → IsWheel s
    → s.resolution ≡ r
    → s.max_quantum ≡ n
    → All (Fits r n) es
    → agenda (fire now es s) k ≡ renewed now r k es ++ agenda s k
unfolding fire renewed
agenda-fire now k r n [] s w hr hn f = refl
agenda-fire now k r n (e ∷ es) s w hr hn f =
    let same = once-SameWheel now e s in
    agenda-fire now k r n es (once now e s) (once-IsWheel now e s w) (same.2 ∙ hr) (same.1 ∙ hn) f.1
    ∙ ap (◌++◌ (renewed now r k es)) (agenda-once now k r n e s w hr hn f.0)
    ∙ sym (append_assoc (renewed now r k es) _ (agenda s k))

-- The wheel after a tick, given the wheel after `fire`.
turned : TimeService → TimeService
turned s1 = record s1 {
  time_table = set s1.time_table s1.current_quantum s1.temporary_quantum;
  temporary_quantum = [];
  current_quantum = if suc s1.current_quantum == s1.max_quantum then 0 else suc s1.current_quantum;
}

agenda-turned :
    (k : ℕ) (s : TimeService)
    → IsWheel s
    → agenda (turned s) k ≡ (if ltb k s.max_quantum then agenda s (suc k) else [])
unfolding agenda turned
agenda-turned k s w = ground (
  arith,
  slot-set s.time_table s.current_quantum
      (wrap s.max_quantum
        ((if suc s.current_quantum == s.max_quantum then 0 else suc s.current_quantum) + k))
      s.temporary_quantum,
)

abbrev pub finished : ℕ → TimeEvent → TimeEvent
finished now e = record e { end_time = now }

pub agenda-zero : (s : TimeService) → IsWheel s → agenda s 0 ≡ slot s.time_table s.current_quantum
unfolding agenda
agenda-zero s w = ground arith

-- A tick notifies what is due now, each event with the time as its end. Afterwards what was due one
-- tick later is due now, and so on; a clock that has fired joins, in front, those that wait as many
-- ticks as it does, and a timer that has fired is gone. Nothing waits a whole round any more.
pub agenda-tick :
    (now k : ℕ) (s : TimeService)
    → IsWheel s
    → All (Fits s.resolution s.max_quantum) (agenda s 0)
    → ((tick now s).1 ≡ map (finished now) (agenda s 0))
      × (agenda (tick now s).0 k ≡ (
          if ltb k s.max_quantum
          then renewed now s.resolution (suc k) (agenda s 0) ++ agenda s (suc k)
          else []))
unfolding turned
agenda-tick now k s w f =
    let due = slot s.time_table s.current_quantum in
    let s1 = fire now due s in
    let same = fire-SameWheel now due s in
    let w1 : IsWheel s1 = record {
      inside = omega (arith, same.0, same.1, w.inside);
      size = omega (arith, same.1, same.5, w.size);
    } in
    let f' = subst (All (Fits s.resolution s.max_quantum)) (agenda-zero s w) f in
    (
      unfold tick in ap (map (finished now)) (sym (agenda-zero s w)),
      unfold tick in
          (agenda-turned k s1 w1
            ∙ ground (
              arith,
              agenda-fire now (suc k) s.resolution s.max_quantum due s w refl refl f',
              same.1,
              agenda-zero s w,
            )),
    )

-- A tick keeps the wheel's shape and what it is built for.
pub tick-IsWheel :
    (now : ℕ) (s : TimeService)
    → IsWheel s
    → IsWheel (tick now s).0
      × ((tick now s).0.max_quantum ≡ s.max_quantum)
      × ((tick now s).0.resolution ≡ s.resolution)
      × ((tick now s).0.max_time ≡ s.max_time)
      × ((tick now s).0.running ≡ s.running)
unfolding tick
tick-IsWheel now s w =
    let s1 = fire now (slot s.time_table s.current_quantum) s in
    let same = fire-SameWheel now (slot s.time_table s.current_quantum) s in
    (
      record {
        inside = ground (arith, same.0, same.1, w.inside);
        size =
            length-set s1.time_table s1.current_quantum s1.temporary_quantum
            ∙ omega (arith, same.1, same.5, w.size);
      },
      same.1,
      same.2,
      same.3,
      same.4,
    )

-- Nothing waits for longer than a round.
pub agenda_beyond : (s : TimeService) (k : ℕ) → s.max_quantum < k → agenda s k ≡ []
unfolding agenda
agenda_beyond s k h = ground arith
