-- ===== src/App/Termination.antt =====
-- The recursion of `Service::initialize` ends: each call starts a service that did not run.
use coffee.Base.{
  Bool, true, false, Result, ok, raise, ℕ, zero, suc, List, [], ◌∷◌, ◌++◌, some, ==_iff, ◌≡◌, ◌≢◌,
  refl, arith, sym, ap, ◌∙◌, subst, ◌<◌, ◌≤◌, text_key,
}
use coffee.App.Runnable.{status_starting}
use coffee.App.Service.{
  Error, out_of_fuel, Requirement, Behaviour, Application, select, write, set_status,
  set_requirements, initialize_requirement, initialize_selection, initialize_requirements, conclude,
  own_error, finish_initialize, initialize,
}
use coffee.App.Initialize.{
  is_active, Keeps, Recurses, Round, initialize_requirement-Round, initialize-Recurses,
}
use coffee.App.Counting.{
  count_inactive, contains, contains-select, select-out_of_fuel, count_inactive-KeepsAll,
  count_inactive-starting, Keeps-active, Keeps-services, Returns,
}

module _ (fuel : ℕ) (recurse : ℕ → Application → Application × Result Error (Unit {0}))
    (rec : Recurses recurse) (returns : Returns fuel recurse) where
  initialize_selection-returns :
      (y : ℕ) (r : Requirement) (app : Application) (running starting : Bool)
      → (app.heap y).status.running ≡ running
      → (app.heap y).status.starting ≡ starting
      → contains y app.services ≡ true
      → count_inactive app app.services ≤ fuel
      → (initialize_selection recurse y r app running starting).1 ≢ raise out_of_fuel
  unfolding initialize_selection Returns is_active
  initialize_selection-returns y r app true starting hr hs c m q = cc
  initialize_selection-returns y r app false true hr hs c m q = cc
  initialize_selection-returns y r app false false hr hs c m q =
      returns y app (ground arith) c m (ground arith)

  set_requirements-counts :
      (x : ℕ) (rs : List Requirement) (app : Application)
      → count_inactive (set_requirements x rs app) app.services ≤ count_inactive app app.services
  unfolding set_requirements write is_active
  set_requirements-counts x rs app =
      count_inactive-KeepsAll app (set_requirements x rs app) (λ y a. ground (arith, ==_iff y x))
        app.services

  initialize_requirement-returns :
      (x : ℕ) (done : List Requirement) (r : Requirement) (rs : List Requirement)
      (app : Application)
      → count_inactive app app.services ≤ fuel
      → (initialize_requirement recurse x done r rs app (select app r.feature r.implementation)).1
        ≢ raise out_of_fuel
  unfolding initialize_requirement set_requirements write
  initialize_requirement-returns x done r rs app m =
      go (select app r.feature r.implementation) (contains-select app r.feature r.implementation)
        (select-out_of_fuel app r.feature r.implementation)
    where
      go :
          (selected : Result Error ℕ)
          → ((y : ℕ) → selected ≡ ok y → contains y app.services ≡ true)
          → selected ≢ raise out_of_fuel
          → (initialize_requirement recurse x done r rs app selected).1 ≢ raise out_of_fuel
      go (raise e) c n q = n (ground arith)
      go (ok y) c n q =
          let r' : Requirement = record r { selection = some y } in
          initialize_selection-returns y r' (set_requirements x (done ++ r' ∷ rs) app) _ _ refl refl
            (c y refl) (omega (arith, set_requirements-counts x (done ++ r' ∷ rs) app)) q

  initialize_requirements-Returns :
      (x : ℕ) (done rs : List Requirement) (app : Application)
      → (app.heap x).status.starting ≡ true
      → count_inactive app app.services ≤ fuel
      → (initialize_requirements recurse x done rs app).1 ≢ raise out_of_fuel
  unfolding initialize_requirements is_active
  initialize_requirements-Returns x done [] app h m q = cc
  initialize_requirements-Returns x done (r ∷ rs) app h m q =
      go (initialize_requirement recurse x done r rs app (select app r.feature r.implementation))
        (initialize_requirement-Round recurse rec x done r rs app _ h)
        (initialize_requirement-returns x done r rs app m)
        (λ r' app1. initialize_requirements-Returns x (done ++ r' ∷ []) rs app1) q
    where
      counts :
          (app1 : Application)
          → Keeps x app app1
          → (app1.heap x).status ≡ (app.heap x).status
          → count_inactive app1 app.services ≤ count_inactive app app.services
      counts app1 k s =
          count_inactive-KeepsAll app app1 (Keeps-active x app app1 k (λ a. ground arith))
            app.services

      go :
          (round : Application × Result Error Requirement)
          → Round x app round.0 round.1
          → round.1 ≢ raise out_of_fuel
          → ((r' : Requirement) (app1 : Application)
              → (app1.heap x).status.starting ≡ true
              → count_inactive app1 app1.services ≤ fuel
              → (initialize_requirements recurse x (done ++ r' ∷ []) rs app1).1 ≢ raise out_of_fuel)
          → (let out : Application × Result Error (Unit {0}) = elim round.1 [
            | raise e ↦ (round.0, raise e)
            | ok r' ↦ initialize_requirements recurse x (done ++ r' ∷ []) rs round.0
          ] in
              out.1 ≢ raise out_of_fuel)
      go (app1, raise e) k n rest q' = n (ground arith)
      go (app1, ok r') k n rest q' =
          rest r' app1 (ap (λ s. s.starting) k.own ∙ h)
            (subst (λ t. count_inactive app1 t ≤ fuel) (sym (Keeps-services x app app1 k.keeps))
              (omega (arith, counts app1 k.keeps k.own)))
            q'

module _ (b : Behaviour) where
  finish_initialize-returns :
      (x : ℕ) (app : Application) (result : Result Error (Unit {0}))
      → result ≢ raise out_of_fuel
      → (finish_initialize b x (app, result)).1 ≢ raise out_of_fuel
  unfolding finish_initialize conclude own_error
  finish_initialize-returns x app (raise e) n q = n q
  finish_initialize-returns x app (ok _) n q = ground arith

  starts :
      (y : ℕ) (app : Application)
      → is_active app y ≡ false
      → contains y app.services ≡ true
      → (let app1 = set_status y status_starting app in
          ((app1.heap y).status.starting ≡ true)
          × (count_inactive app1 app1.services < count_inactive app app.services))
  unfolding set_status write status_starting is_active
  starts y app i c =
      let app1 = set_status y status_starting app in
      (
        ground arith,
        count_inactive-starting app app1 y (λ z a. ground (arith, ==_iff z y)) i (ground arith)
            app.services c,
      )

  -- The fuel of `Service::initialize` is enough when it is the number of services that neither run
  -- nor start.
  pub initialize-Returns : (fuel : ℕ) → Returns fuel (initialize b fuel)
  unfolding Returns initialize
  initialize-Returns zero y app i c m q = omega (arith, (starts y app i c).1)
  initialize-Returns (suc fuel) y app i c m q =
      let app1 = set_status y status_starting app in
      let out = initialize_requirements (initialize b fuel) y [] (app.heap y).requirements app1 in
      finish_initialize-returns y out.0 out.1
        (initialize_requirements-Returns fuel (initialize b fuel) (initialize-Recurses b fuel)
          (initialize-Returns fuel) y [] (app.heap y).requirements app1 (starts y app i c).0
          (omega (arith, (starts y app i c).1)))
        q

  -- `Service::initialize` of an attached service that neither runs nor starts does not run out of
  -- fuel, if it has as much as there are such services.
  pub initialize_terminates :
      (fuel x : ℕ) (app : Application)
      → is_active app x ≡ false
      → contains x app.services ≡ true
      → count_inactive app app.services ≤ fuel
      → (initialize b fuel x app).1 ≢ raise out_of_fuel
  unfolding Returns
  initialize_terminates fuel x app i c m = initialize-Returns fuel x app i c m
