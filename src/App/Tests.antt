-- ===== src/App/Tests.antt =====
-- Runs and instances of the theorems of App.
use coffee.Base.{
  Result, true, false, ok, raise, if◌then◌else◌, ℕ, zero, suc, [], ◌∷◌, none, some, ◌==◌, ◌≡◌, ◌≢◌,
  ◌⊎◌, ◌≤◌, refl, arith,
}
use coffee.App.Runnable.{
  Status, status_stopped, status_failed, status_starting, status_running, is_stopped, stop,
}
use coffee.App.Service.{
  no_service, Error, has_loop, out_of_fuel, Requirement, Service, initialized, Behaviour,
  Application, find_requirement, require, get_requirement, equal_range, find_implementation,
  select_in, select, write, set_status, set_requirements, initialize_selection,
  initialize_requirement, initialize_requirements, conclude, own_error, finish_initialize,
  initialize,
}
use coffee.App.Application.{
  run_services, start, insert, attach, start_each, start_services, stop_service, stop_each, do_stop,
  stop_application,
}
use coffee.App.Initialize.{is_active, Keeps, Selected, initialize_outcome}
use coffee.App.Writes.{Supported}
use coffee.App.Requirements.{initialize_supports}
use coffee.App.Counting.{contains, count_inactive}
use coffee.App.Termination.{initialize_terminates}
use coffee.App.Services.{start_services_run, do_stop_stops}
use coffee.App.Registry.{Sorted, attach_selects}

program : Unit {0}
unfolding status_stopped status_failed status_starting status_running is_stopped stop
    find_requirement require get_requirement equal_range find_implementation select_in select write
    set_status set_requirements initialize_selection initialize_requirement initialize_requirements
    conclude own_error finish_initialize initialize insert attach start_each start_services
    stop_service stop_each do_stop stop_application run_services start is_active contains
    count_inactive Sorted Supported Selected
program = tt

abbrev down : Status
down = record { starting = false; running = false; stopped_with_error = false }

abbrev needs : ℕ → Requirement
needs feature = record { feature = feature; implementation = "*"; selection = none }

-- 0 requires the feature of 1, and 2 requires its own.
abbrev services : ℕ → Service
services zero = record {
  feature = 1;
  implementation = "http";
  status = down;
  requirements = needs 2 ∷ [];
}
services (suc zero) = record {
  feature = 2;
  implementation = "zmq";
  status = down;
  requirements = [];
}
services (suc (suc n)) = record {
  feature = 3;
  implementation = "loop";
  status = down;
  requirements = needs 3 ∷ [];
}

abbrev app : Application
app = record { services = (1, 0) ∷ (2, 1) ∷ []; heap = services; status = down; calls = [] }

-- The service 7 fails in each of its methods.
abbrev behaviour : Behaviour
behaviour = record {
  do_initialize = λ calls x. if x == 7 then raise 1 else ok tt;
  do_stop = λ calls x. if x == 1 then raise 2 else ok tt;
}

-- `startServices` initializes again a service that runs already, since another one required it.
starts_twice :
    (start_services behaviour 2 app).0.calls ≡ initialized 1 ∷ initialized 0 ∷ initialized 1 ∷ []
unfolding program
starts_twice = refl

finds_loop : (initialize behaviour 2 2 (record app { services = (3, 2) ∷ [] })).1 ≡ raise has_loop
unfolding program
finds_loop = refl

app-Supported : Supported app
unfolding program
app-Supported zero r = cc
app-Supported (suc zero) r = cc
app-Supported (suc (suc n)) r = cc

app_inactive : is_active app 0 ≡ false
unfolding program
app_inactive = refl

app_contains : contains 0 app.services ≡ true
unfolding program
app_contains = refl

app_counts : count_inactive app app.services ≤ 2
unfolding program
app_counts = omega arith

app_initialized : (initialize behaviour 2 0 app).1 ≡ ok tt
unfolding program
app_initialized = refl

abbrev selected : Requirement
selected = record { feature = 2; implementation = "*"; selection = some 1 }

app_found :
    find_requirement 2 ((initialize behaviour 2 0 app).0.heap 0).requirements ≡ some selected
unfolding program
app_found = refl

initialize_outcome_example :
    Keeps 0 app (initialize behaviour 2 0 app).0
    × ((((initialize behaviour 2 0 app).1 ≡ ok tt)
          × (((initialize behaviour 2 0 app).0.heap 0).status.running ≡ true))
        ⊎ ((e : Error) × ((initialize behaviour 2 0 app).1 ≡ raise e)
            × (((initialize behaviour 2 0 app).0.heap 0).status ≡ status_stopped)))
initialize_outcome_example = initialize_outcome behaviour 1 0 app

initialize_supports_example : Supported (initialize behaviour 2 0 app).0
initialize_supports_example = initialize_supports behaviour 2 0 app app_inactive app-Supported

initialize_terminates_example : (initialize behaviour 2 0 app).1 ≢ raise out_of_fuel
initialize_terminates_example =
    initialize_terminates behaviour 2 0 app app_inactive app_contains app_counts

app_started : (start_services behaviour 2 app).1 ≡ ok tt
unfolding program
app_started = refl

start_services_run_example : ((start_services behaviour 2 app).0.heap 0).status.running ≡ true
start_services_run_example = start_services_run behaviour 1 0 app app_started app_contains

abbrev started : Application
started = (start_services behaviour 2 app).0

started_contains : contains 0 started.services ≡ true
unfolding program
started_contains = refl

do_stop_stops_example : is_stopped ((do_stop behaviour started).0.heap 0).status ≡ true
do_stop_stops_example = do_stop_stops behaviour 0 started started_contains

app_stopped : app.status.running ≡ false
unfolding program
app_stopped = refl

app-Sorted : Sorted app.services
unfolding program
app-Sorted = (omega arith, tt)

app_attached : (attach behaviour 1 (some 2) app).1 ≡ ok true
unfolding program
app_attached = refl

loop_ne : (app.heap 2).implementation ≢ "*"
loop_ne h = cc

attach_selects_example :
    Sorted (attach behaviour 1 (some 2) app).0.services
    × (select (attach behaviour 1 (some 2) app).0 3 "loop" ≡ ok 2)
attach_selects_example =
    attach_selects behaviour 1 2 app app_stopped app-Sorted app_attached loop_ne

app_selects : select app 2 "*" ≡ ok 1
unfolding program
app_selects = refl

-- A `run` that throws.
abbrev run : Application → Application × Result Error (Unit {0})
run started_app = (started_app, raise no_service)
