-- ===== src/App/Service.antt =====
-- source/src/app/Service.cc and the part of source/src/app/Application.cc that keeps services.
--
-- Services are shared objects: a `std::shared_ptr` is an address, and the application holds the heap.
-- `m_services`, a multimap, is the list of its entries in the multimap's order. The virtual methods
-- of a service are the parameter `Behaviour`; what they answer may depend on all the calls so far,
-- and they do not act on the application.
use coffee.Base.{
  Bool, true, false, Result, ok, raise, if◌then◌else◌, ℕ, zero, suc, String, List, [], ◌∷◌, ◌++◌,
  Option, none, some, text_key, ◌==◌,
}
use coffee.App.Runnable.{Status, status_stopped, status_starting, status_running}

pub data Error : Type 0 where
  already_registered not_registered not_selected : Error
  null_service no_service no_implementation : Error
  has_loop : Error
  -- What a service's own method throws.
  failed : ℕ → Error
  not_all_stopped already_running : Error
  out_of_fuel : Error

pub record Requirement : Type 0 where
  pub feature : ℕ
  pub implementation : String
  pub selection : Option ℕ

pub record Service : Type 0 where
  pub feature : ℕ
  pub implementation : String
  pub status : Status
  pub requirements : List Requirement

-- Calls of a service's virtual methods, the last one first.
pub data Call : Type 0 where
  initialized stopped : ℕ → Call

pub record Behaviour : Type 0 where
  pub do_initialize : List Call → ℕ → Result ℕ (Unit {0})
  pub do_stop : List Call → ℕ → Result ℕ (Unit {0})

pub record Application : Type 0 where
  -- The feature and the address of each service.
  pub services : List (ℕ × ℕ)
  pub heap : ℕ → Service
  pub status : Status
  pub calls : List Call

unfoldable pub find_requirement : ℕ → List Requirement → Option Requirement
find_requirement feature [] = none
find_requirement feature (r ∷ rs) =
    if r.feature == feature then some r else find_requirement feature rs

unfoldable pub require : ℕ → String → Service → Result Error Service
require feature implementation s = elim (find_requirement feature s.requirements) [
  | some _ ↦ raise already_registered
  | none ↦ ok (record s {
    requirements =
        s.requirements
        ++ record { feature = feature; implementation = implementation; selection = none } ∷ [];
  })
]

unfoldable pub get_requirement : ℕ → Service → Result Error ℕ
get_requirement feature s = elim (find_requirement feature s.requirements) [
  | none ↦ raise not_registered
  | some r ↦ elim r.selection [ none ↦ raise not_selected | some x ↦ ok x ]
]

-- The range of a feature in the multimap.
unfoldable pub equal_range : ℕ → List (ℕ × ℕ) → List ℕ
equal_range feature [] = []
equal_range feature ((f, x) ∷ services) =
    let rest = equal_range feature services in if f == feature then x ∷ rest else rest

unfoldable pub find_implementation : (ℕ → Service) → String → List ℕ → Option ℕ
find_implementation heap implementation [] = none
find_implementation heap implementation (x ∷ xs) =
    if text_key.same (heap x).implementation implementation
    then some x
    else find_implementation heap implementation xs

abbrev pub whatever_implementation : String
whatever_implementation = "*"

-- `select` in the range of the feature.
unfoldable pub select_in : (ℕ → Service) → String → List ℕ → Result Error ℕ
select_in heap implementation [] = raise no_service
select_in heap implementation (x ∷ xs) =
    if text_key.same implementation whatever_implementation
    then ok x
    else elim (find_implementation heap implementation (x ∷ xs)) [
      | none ↦ raise no_implementation
      | some y ↦ ok y
    ]

unfoldable pub select : Application → ℕ → String → Result Error ℕ
select app feature implementation =
    select_in app.heap implementation (equal_range feature app.services)

unfoldable pub write : ℕ → Service → Application → Application
write x s app = record app { heap = λ y. if y == x then s else app.heap y }

unfoldable pub set_status : ℕ → Status → Application → Application
set_status x status app = write x (record (app.heap x) { status = status }) app

unfoldable pub set_requirements : ℕ → List Requirement → Application → Application
set_requirements x requirements app =
    write x (record (app.heap x) { requirements = requirements }) app

-- What `Service::initialize` does once the service at `y` is selected for the requirement `r`, by the
-- flags of its status. `recurse` is the recursive call.
unfoldable pub initialize_selection :
    (ℕ → Application → Application × Result Error (Unit {0}))
    → ℕ
    → Requirement
    → Application
    → Bool
    → Bool
    → Application × Result Error Requirement
initialize_selection recurse y r app true starting = (app, ok r)
initialize_selection recurse y r app false true = (app, raise has_loop)
initialize_selection recurse y r app false false =
    let (app1, result) = recurse y app in (app1, elim result [ raise e ↦ raise e | ok _ ↦ ok r ])

-- One round of the loop of `Service::initialize` on the requirements of the service at `x`: `done`
-- are those before `r`, and the last argument is what `select` returns. The round returns the
-- requirement with its selection.
unfoldable pub initialize_requirement :
    (ℕ → Application → Application × Result Error (Unit {0}))
    → ℕ
    → List Requirement
    → Requirement
    → List Requirement
    → Application
    → Result Error ℕ
    → Application × Result Error Requirement
initialize_requirement recurse x done r rs app (raise e) = (app, raise e)
initialize_requirement recurse x done r rs app (ok y) =
    let r' : Requirement = record r { selection = some y } in
    let app1 = set_requirements x (done ++ r' ∷ rs) app in
    let status = (app1.heap y).status in
    initialize_selection recurse y r' app1 status.running status.starting

unfoldable pub initialize_requirements :
    (ℕ → Application → Application × Result Error (Unit {0}))
    → ℕ
    → List Requirement
    → List Requirement
    → Application
    → Application × Result Error (Unit {0})
initialize_requirements recurse x done [] app = (app, ok tt)
initialize_requirements recurse x done (r ∷ rs) app =
    let (app1, result) =
      initialize_requirement recurse x done r rs app (select app r.feature r.implementation) in
    elim result [
      | raise e ↦ (app1, raise e)
      | ok r' ↦ initialize_requirements recurse x (done ++ r' ∷ []) rs app1
    ]

-- The end of `Service::initialize`: the status, and the exception that is thrown again.
unfoldable pub conclude :
    ℕ → Application → Result Error (Unit {0}) → Application × Result Error (Unit {0})
conclude x app (raise e) = (set_status x status_stopped app, raise e)
conclude x app (ok _) = (set_status x (status_running (app.heap x).status) app, ok tt)

unfoldable pub own_error : Result ℕ (Unit {0}) → Result Error (Unit {0})
own_error (ok _) = ok tt
own_error (raise e) = raise (failed e)

module _ (b : Behaviour) where
  -- `Service::initialize` after the loop.
  unfoldable pub finish_initialize :
      ℕ → Application × Result Error (Unit {0}) → Application × Result Error (Unit {0})
  finish_initialize x (app, raise e) = conclude x app (raise e)
  finish_initialize x (app, ok _) =
      conclude x (record app { calls = initialized x ∷ app.calls })
        (own_error (b.do_initialize app.calls x))

  -- `Service::initialize`, with fuel for the depth of the recursive calls.
  unfoldable pub initialize : ℕ → ℕ → Application → Application × Result Error (Unit {0})
  initialize zero x app = (app, raise out_of_fuel)
  initialize (suc fuel) x app = finish_initialize x (
      initialize_requirements (initialize fuel) x [] (app.heap x).requirements
        (set_status x status_starting app))
