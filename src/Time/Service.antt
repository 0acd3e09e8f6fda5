-- ===== src/Time/Service.antt =====
-- time::TimeEvent and time::TimeService: source/src/time/TimeService.cc. Times are milliseconds.
-- Every method holds the mutex, so each is one step; a tick is one round of `consume`'s inner loop.
-- `now` is the clock's reading.
--
-- A node of a quantum holds a copy of its event. In the source the nodes of one event share an object,
-- whose times `store` and a tick write: the two agree as long as the wheel has one node of the event,
-- which Time/Single is about. An event has more nodes only if it is activated again after the service
-- was stopped and started while it waited, since `do_stop` leaves the wheel as it is.
use coffee.Base.{
  ℕ, zero, suc, ◌+◌, ◌-◌, ◌*◌, ◌/◌, ◌%◌, Bool, true, false, ◌||◌, List, [], ◌∷◌, map, Option, none,
  some, Result, ok, raise, get_elem?, set, if◌then◌else◌, ◌==◌, ltb, leb, find, assign, erase,
  number_key,
}

pub data Error : Type 0 where
  stopped null_event zero_duration out_of_range already_activated bad_resolution not_finished :
      Error

-- Timer and Clock differ in `isPeriodical` only.
pub record TimeEvent : Type 0 where
  pub id : ℕ
  pub timeout : ℕ
  pub is_periodical : Bool
  pub init_time : ℕ
  pub end_time : ℕ

unfoldable pub instantiate_timer : ℕ → ℕ → TimeEvent
instantiate_timer id timeout = record {
  id = id;
  timeout = timeout;
  is_periodical = false;
  init_time = 0;
  end_time = 0;
}

unfoldable pub instantiate_clock : ℕ → ℕ → TimeEvent
instantiate_clock id timeout = record {
  id = id;
  timeout = timeout;
  is_periodical = true;
  init_time = 0;
  end_time = 0;
}

-- TimeEvent::getDuration.
unfoldable pub get_duration : TimeEvent → Result Error ℕ
get_duration e =
    if e.init_time == 0 || e.end_time == 0
    then raise not_finished
    else ok (e.end_time - e.init_time)

-- Where `events` notes the node of an event: in a quantum of the table, or in the temporary quantum,
-- whose nodes are moved into the given quantum of the table by the next tick.
pub data Place : Type 0 where
  temporary : ℕ → Place
  at : ℕ → Place

pub record TimeService : Type 0 where
  pub running : Bool
  pub max_time : ℕ
  pub resolution : ℕ
  pub max_quantum : ℕ
  pub current_quantum : ℕ
  pub time_table : List (List TimeEvent)
  pub events : List (ℕ × Place)
  pub temporary_quantum : List TimeEvent

-- `while ((result * resolution) < maxTime) ++ result`, with fuel.
unfoldable pub round_up : ℕ → ℕ → ℕ → ℕ → ℕ
round_up zero max_time resolution result = result
round_up (suc fuel) max_time resolution result = elim (ltb (result * resolution) max_time) [
  | true ↦ round_up fuel max_time resolution (suc result)
  | false ↦ result
]

unfoldable pub calcule_max_quantum : ℕ → ℕ → ℕ
calcule_max_quantum max_time resolution =
    round_up max_time max_time resolution (max_time / resolution)

unfoldable pub quanta : ℕ → List (List TimeEvent)
quanta zero = []
quanta (suc n) = [] ∷ quanta n

-- The constructor.
unfoldable pub init : ℕ → ℕ → TimeService
init max_time resolution = record {
  running = false;
  max_time = max_time;
  resolution = resolution;
  max_quantum = calcule_max_quantum max_time resolution;
  current_quantum = 0;
  time_table = quanta (calcule_max_quantum max_time resolution);
  events = [];
  temporary_quantum = [];
}

-- `do_initialize`, whose threads run the ticks.
unfoldable pub do_initialize : TimeService → Result Error TimeService
do_initialize s =
    if leb s.max_time s.resolution then raise bad_resolution else ok (record s { running = true })

-- `do_stop`. The time table and the temporary quantum are not cleared.
unfoldable pub do_stop : TimeService → TimeService
do_stop s = record s { running = false; events = [] }

abbrev pub slot : List (List TimeEvent) → ℕ → List TimeEvent
slot table i = elim (get_elem? table i) [ none ↦ [] | some q ↦ q ]

unfoldable pub store : ℕ → TimeEvent → TimeService → TimeService
store now e s =
    let index = (s.current_quantum + e.timeout / s.resolution) % s.max_quantum in
    let e' : TimeEvent = record e { init_time = now; end_time = 0 } in
    if index == s.current_quantum
    then record s {
      temporary_quantum = e' ∷ s.temporary_quantum;
      events = assign s.events e.id (temporary index);
    }
    else record s {
      time_table = set s.time_table index (e' ∷ slot s.time_table index);
      events = assign s.events e.id (at index);
    }

unfoldable pub activate : ℕ → Option TimeEvent → TimeService → Result Error TimeService
activate now none s = if s.running then raise null_event else raise stopped
activate now (some e) s =
    if s.running
    then if e.timeout == 0
      then raise zero_duration
      else if ltb s.max_time e.timeout || ltb e.timeout s.resolution
      then raise out_of_range
      else elim (find s.events e.id) [
        | some _ ↦ raise already_activated
        | none ↦ ok (store now e s)
      ]
    else raise stopped

-- The first node of an event goes.
unfoldable pub unlink : ℕ → List TimeEvent → List TimeEvent
unlink id [] = []
unlink id (e ∷ es) = let others = unlink id es in if e.id == id then es else e ∷ others

unfoldable pub has_event : ℕ → List TimeEvent → Bool
has_event id [] = false
has_event id (e ∷ es) = e.id == id || has_event id es

-- `std::list::erase` of the node that the iterator of `events` stands at. It is the one that the
-- event's last `store` put in front of its quantum, so it is the event's first node in the list where
-- it is now. A temporary node is in the temporary quantum until the next tick, which empties it.
unfoldable pub erase_node : Place → ℕ → TimeService → TimeService
erase_node (at index) id s = record s {
  time_table = set s.time_table index (unlink id (slot s.time_table index));
}
erase_node (temporary index) id s =
    if has_event id s.temporary_quantum
    then record s { temporary_quantum = unlink id s.temporary_quantum }
    else record s { time_table = set s.time_table index (unlink id (slot s.time_table index)) }

unfoldable pub cancel : ℕ → TimeService → TimeService × Bool
cancel id s = elim (find s.events id) [
  | none ↦ (s, false)
  | some place ↦ (record (erase_node place id s) { events = erase s.events id }, true)
]

-- The loop over the quantum that is due.
unfoldable pub fire : ℕ → List TimeEvent → TimeService → TimeService
fire now [] s = s
fire now (e ∷ es) s =
    let s' : TimeService = record s { events = erase s.events e.id } in
    fire now es (if e.is_periodical then store now e s' else s')

-- The service after a tick, and the events that it notifies, in order.
unfoldable pub tick : ℕ → TimeService → TimeService × List TimeEvent
tick now s =
    let due = slot s.time_table s.current_quantum in
    let s1 = fire now due s in
    (
      record s1 {
        time_table = set s1.time_table s1.current_quantum s1.temporary_quantum;
        temporary_quantum = [];
        current_quantum =
            if suc s1.current_quantum == s1.max_quantum then 0 else suc s1.current_quantum;
      },
      map {A = TimeEvent} (λ e. record e { end_time = now }) due,
    )
