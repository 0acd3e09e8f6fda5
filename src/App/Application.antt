-- ===== src/App/Application.antt =====
-- source/src/app/Application.cc: the services of an application, attached, started and stopped.
-- `attach` and `startServices` take the fuel of `Service::initialize`.
use coffee.Base.{
  Bool, true, false, ◌||◌, Result, ok, raise, if◌then◌else◌, ℕ, List, [], ◌∷◌, Option, none, some,
  text_key, leb,
}
use coffee.App.Runnable.{is_stopped, status_starting, status_running, stop}
use coffee.App.Service.{
  Error, null_service, not_all_stopped, already_running, stopped, Behaviour, Application,
  equal_range, find_implementation, initialize, set_status,
}

-- `multimap::insert`: after the entries that are not greater.
unfoldable pub insert : ℕ → ℕ → List (ℕ × ℕ) → List (ℕ × ℕ)
insert feature x [] = (feature, x) ∷ []
insert feature x ((f, y) ∷ services) =
    if leb f feature then (f, y) ∷ insert feature x services else (feature, x) ∷ (f, y) ∷ services

module _ (b : Behaviour) where
  unfoldable pub attach : ℕ → Option ℕ → Application → Application × Result Error Bool
  attach fuel none app = (app, raise null_service)
  attach fuel (some x) app =
      let feature = (app.heap x).feature in
      elim (find_implementation app.heap (app.heap x).implementation
        (equal_range feature app.services)) [
          | some _ ↦ (app, ok false)
          | none ↦
              let app1 : Application = record app { services = insert feature x app.services } in
              elim app.status.running [
                | false ↦ (app1, ok true)
                | true ↦
                    let (app2, result) = initialize b fuel x app1 in
                    elim result [ raise e ↦ (app2, raise e) | ok _ ↦ (app2, ok true) ]
              ]
        ]

  -- The loop of `startServices`.
  unfoldable pub start_each : ℕ → List (ℕ × ℕ) → Application → Application × Result Error (Unit {0})
  start_each fuel [] app = (app, ok tt)
  start_each fuel ((f, x) ∷ services) app =
      let (app1, result) = initialize b fuel x app in
      elim result [ raise e ↦ (app1, raise e) | ok _ ↦ start_each fuel services app1 ]

  unfoldable pub start_services : ℕ → Application → Application × Result Error (Unit {0})
  start_services fuel app = start_each fuel app.services app

  -- `Runnable::stop` of the service at `x`, and whether it throws.
  unfoldable pub stop_service : ℕ → Application → Application × Bool
  stop_service x app =
      let status = (app.heap x).status in
      let (status', result) = stop (b.do_stop app.calls x) status in
      let app1 = set_status x status' app in
      (
        if is_stopped status then app1 else record app1 { calls = stopped x ∷ app.calls },
        elim result [ ok _ ↦ false | raise _ ↦ true ],
      )

  -- The loop of `do_stop`: whether a service threw.
  unfoldable pub stop_each : List (ℕ × ℕ) → Application → Application × Bool
  stop_each [] app = (app, false)
  stop_each ((f, x) ∷ services) app =
      let (app1, failed) = stop_service x app in
      let (app2, others) = stop_each services app1 in (app2, failed || others)

  unfoldable pub do_stop : Application → Application × Result Error (Unit {0})
  do_stop app =
      let (app1, exception) = stop_each app.services app in
      (app1, if exception then raise not_all_stopped else ok tt)

  -- `Runnable::stop` of the application itself.
  unfoldable pub stop_application : Application → Application × Result Error Bool
  stop_application app = elim (is_stopped app.status) [
    | true ↦ (app, ok false)
    | false ↦
        let (app1, answer) = do_stop app in
        let (status, result) = stop answer app.status in (record app1 { status = status }, result)
  ]

  -- The `try` block of `start`, where `run` is the virtual method.
  unfoldable pub run_services :
      ℕ
      → (Application → Application × Result Error (Unit {0}))
      → Application
      → Application × Result Error (Unit {0})
  run_services fuel run app =
      let (app1, started) = start_services fuel (record app { status = status_starting }) in
      elim started [
        | raise e ↦ (app1, raise e)
        | ok _ ↦ run (record app1 { status = status_running app1.status })
      ]

  -- `prepared` is what the virtual `initialize` returns. An exception of `stop` replaces the other.
  unfoldable pub start :
      ℕ
      → Result Error (Unit {0})
      → (Application → Application × Result Error (Unit {0}))
      → Application
      → Application × Result Error (Unit {0})
  start fuel prepared run app = elim app.status.running [
    | true ↦ (app, raise already_running)
    | false ↦ elim prepared [
      | raise e ↦ (app, raise e)
      | ok _ ↦
          let (app1, result) = run_services fuel run app in
          let (app2, stopping) = stop_application app1 in
          elim stopping [ raise e ↦ (app2, raise e) | ok _ ↦ (app2, result) ]
    ]
  ]
