-- ===== src/Time/Tests.antt =====
-- Runs and instances of the theorems of Time.
use coffee.Base.{
  ap, List, ℕ, ◌+◌, ◌*◌, ◌<◌, ◌≤◌, ◌≡◌, refl, true, false, [], ◌∷◌, ◌++◌, map, some, Result, ok,
  arith, if◌then◌else◌, ltb, find, assign, erase, number_key, subst, sym, ◌∙◌,
}
use coffee.Time.Service.{
  TimeEvent, TimeService, Error, instantiate_timer, instantiate_clock, round_up,
  calcule_max_quantum, quanta, init, do_initialize, do_stop, store, activate, unlink, has_event,
  erase_node, cancel, fire, tick,
}
use coffee.Time.Agenda.{agenda, finished, renewed, agenda-tick}
use coffee.Time.Cancelling.{ids, cancel-activate}
use coffee.Time.Single.{amount, IsAbsent}
use coffee.Time.Quanta.{calcule_max_quantum_least}
use coffee.Time.Invariant.{IsValid, activate-agenda}
use coffee.Time.Restart.{init-IsValid, stop_keeps_agenda}
use coffee.Time.Delivery.{
  Step, Has, ticks, activates, cancels, step, run, notified, notified_on_time,
}

program : Unit {0}
unfolding instantiate_timer instantiate_clock round_up calcule_max_quantum quanta init do_initialize
    do_stop store activate unlink has_event erase_node cancel fire tick agenda renewed step run find
    assign erase
program = tt

-- Ten quanta of 100 ms.
abbrev wheel : TimeService
wheel = record {
  running = true;
  max_time = 1000;
  resolution = 100;
  max_quantum = 10;
  current_quantum = 0;
  time_table = [] ∷ [] ∷ [] ∷ [] ∷ [] ∷ [] ∷ [] ∷ [] ∷ [] ∷ [] ∷ [];
  events = [];
  temporary_quantum = [];
}

wheel_init : do_initialize (init 1000 100) ≡ ok wheel
unfolding program
wheel_init = refl

abbrev timer : TimeEvent
timer = record { id = 7; timeout = 250; is_periodical = false; init_time = 0; end_time = 0 }

abbrev clock : TimeEvent
clock = record { id = 8; timeout = 1000; is_periodical = true; init_time = 0; end_time = 0 }

abbrev fired : TimeEvent
fired = record timer { init_time = 5; end_time = 305 }

-- A timer of two quanta is notified by the third tick.
third_tick : (tick 305 (run (activates 5 timer ∷ ticks 105 ∷ ticks 205 ∷ []) wheel)).1 ≡ fired ∷ []
unfolding program
third_tick = refl

-- A clock of a whole round passes through the temporary quantum.
whole_round :
    (tick 1105 (
      run
        (activates 5 clock
          ∷ ticks 1
          ∷ ticks 2
          ∷ ticks 3
          ∷ ticks 4
          ∷ ticks 5
          ∷ ticks 6
          ∷ ticks 7
          ∷ ticks 8
          ∷ ticks 9
          ∷ ticks 10
          ∷ [])
        wheel)).1
    ≡ record clock { init_time = 5; end_time = 1105 } ∷ []
unfolding program
whole_round = refl

init-IsValid_example :
    (s : TimeService) × (do_initialize (init 1000 100) ≡ ok s)
    × IsValid s
    × (s.running ≡ true)
    × ((k : ℕ) → agenda s k ≡ [])
init-IsValid_example = init-IsValid 1000 100 (omega arith) (omega arith)

wheel-IsValid : IsValid wheel
wheel-IsValid =
    let (s, built, valid, _, _) = init-IsValid_example in
    subst IsValid (ok-injective (sym built ∙ wheel_init)) valid
  where
    ok-injective : {s t : TimeService} → ◌≡◌ {A = Result Error TimeService} (ok s) (ok t) → s ≡ t
    ok-injective p = cc

abbrev busy : TimeService
busy = record wheel {
  time_table =
      (record clock { init_time = 1 } ∷ [])
      ∷ []
      ∷ (record timer { init_time = 5 } ∷ [])
      ∷ []
      ∷ []
      ∷ []
      ∷ []
      ∷ []
      ∷ []
      ∷ []
      ∷ [];
}

agenda-tick_example :
    ((tick 50 busy).1 ≡ map (finished 50) (agenda busy 0))
    × (agenda (tick 50 busy).0 9
        ≡ (if ltb 9 10 then renewed 50 100 10 (agenda busy 0) ++ agenda busy 10 else []))
unfolding agenda
agenda-tick_example =
    agenda-tick 50 9 busy (record { inside = omega arith; size = refl }) (omega arith)

activated : activate 5 (some timer) busy ≡ ok (store 5 timer busy)
unfolding program
activated = refl

-- A node that a stop has left stays, behind the new one.
cancel-activate_example :
    ((cancel 7 (store 5 timer busy)).1 ≡ true)
    × (ids (agenda (cancel 7 (store 5 timer busy)).0 2) ≡ ids (agenda busy 2))
    × (cancel 7 (cancel 7 (store 5 timer busy)).0 ≡ ((cancel 7 (store 5 timer busy)).0, false))
cancel-activate_example = cancel-activate 5 2 timer busy (store 5 timer busy) activated

calcule_max_quantum_least_example :
    (1050 ≤ calcule_max_quantum 1050 100 * 100) × (calcule_max_quantum 1050 100 * 100 < 1050 + 100)
calcule_max_quantum_least_example = calcule_max_quantum_least 1050 100 (omega arith) (omega arith)

wheel-IsAbsent : (id : ℕ) → IsAbsent id wheel
unfolding IsAbsent amount
wheel-IsAbsent id k =
    let (s, built, _, _, empty) = init-IsValid_example in
    let same : s ≡ wheel = ok-wheel s (sym built ∙ wheel_init) in
    ap (λ t. amount id (agenda t k)) (sym same) ∙ ap (amount id) (empty k)
  where
    ok-wheel : (s : TimeService) → ◌≡◌ {A = Result Error TimeService} (ok s) (ok wheel) → s ≡ wheel
    ok-wheel s p = cc

abbrev steps : List Step
steps = ticks 105 ∷ cancels 9 ∷ ticks 205 ∷ []

notified_on_time_example :
    Has fired (tick 305 (run steps (store 5 timer wheel))).1
    × (amount 7 (tick 305 (run steps (store 5 timer wheel))).1 ≡ 1)
    × (amount 7 (notified steps (store 5 timer wheel)) ≡ 0)
unfolding activate find
notified_on_time_example =
    notified_on_time timer 5 305 steps wheel (store 5 timer wheel) wheel-IsValid (wheel-IsAbsent 7)
      refl (tt, (omega arith, (tt, tt))) refl

store-IsValid : IsValid (store 5 timer wheel)
unfolding activate find
store-IsValid = ((activate-agenda 5 timer wheel wheel-IsValid refl).1 (store 5 timer wheel) refl).0

-- The timer of the wheel that is stopped still waits.
abbrev restarted : TimeService
restarted = record (store 5 timer wheel) { events = [] }

stop_keeps_agenda_example :
    ((tick 50 restarted).1 ≡ map (finished 50) (agenda (store 5 timer wheel) 0))
    × ((k : ℕ) → agenda restarted k ≡ agenda (store 5 timer wheel) k)
    × (restarted.events ≡ [])
unfolding do_initialize do_stop store
stop_keeps_agenda_example = stop_keeps_agenda 50 (store 5 timer wheel) restarted store-IsValid refl
