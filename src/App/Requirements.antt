-- ===== src/App/Requirements.antt =====
-- A service runs only when what it requires runs.
use coffee.Base.{
  Bool, true, false, Result, ok, raise, ℕ, zero, suc, List, [], ◌∷◌, ◌++◌, some, ◌≡◌, refl, arith,
  All, All-append, sym, ap, ◌∙◌, subst, text_key, append_assoc, append-nil,
}
use coffee.App.Runnable.{status_stopped, status_starting, status_running}
use coffee.App.Service.{
  Error, Requirement, initialized, Behaviour, Application, select, set_status, set_requirements,
  initialize_requirement, initialize_selection, initialize_requirements, conclude, own_error,
  finish_initialize, initialize,
}
use coffee.App.Initialize.{
  is_active, KeepsAll, Recurses, Selected, Round, initialize_requirement-Round,
  initialize_requirements-Keeps, initialize-Recurses,
}
use coffee.App.Writes.{
  Supports, Supported, All-Selected, write-Supported, starting, Keeps-runs, heap-set_requirements,
  heap-set_status, set_status-Supported, set_requirements-Supported,
}

module _ (recurse : ℕ → Application → Application × Result Error (Unit {0}))
    (rec : Recurses recurse) (sup : Supports recurse) where
  initialize_selection-Supported :
      (x y : ℕ) (r : Requirement) (app : Application) (running starting : Bool)
      → (app.heap x).status.starting ≡ true
      → (app.heap y).status.running ≡ running
      → (app.heap y).status.starting ≡ starting
      → Supported app
      → (let out = initialize_selection recurse y r app running starting in
          Supported out.0
          × (out.0.heap x ≡ app.heap x)
          × ((q : Requirement) → out.1 ≡ ok q → r ≡ q))
  unfolding initialize_selection Recurses Supports KeepsAll is_active
  initialize_selection-Supported x y r app true starting h hr hs k = (k, refl, λ q e. cc)
  initialize_selection-Supported x y r app false true h hr hs k = (k, refl, λ q e. cc)
  initialize_selection-Supported x y r app false false h hr hs k = (
    sup y app (ground arith) k,
    (rec y app (ground arith)).0.1 x (ground arith),
    λ q e. ground arith,
  )

  initialize_requirement-Supported :
      (x : ℕ) (done : List Requirement) (r : Requirement) (rs : List Requirement)
      (app : Application) (selected : Result Error ℕ)
      → (app.heap x).status ≡ status_starting
      → Supported app
      → (let out = initialize_requirement recurse x done r rs app selected in
          Supported out.0
          × ((q : Requirement) → out.1 ≡ ok q → (out.0.heap x).requirements ≡ done ++ q ∷ rs))
  unfolding initialize_requirement
  initialize_requirement-Supported x done r rs app (raise e) h k = (k, λ q e. cc)
  initialize_requirement-Supported x done r rs app (ok y) h k =
      let r' : Requirement = record r { selection = some y } in
      let app1 = set_requirements x (done ++ r' ∷ rs) app in
      let own = heap-set_requirements x (done ++ r' ∷ rs) app in
      let (sup', kept, same) =
        initialize_selection-Supported x y r' app1 _ _
          (ap (λ s. s.status.starting) own ∙ starting (app.heap x).status h) refl refl
          (set_requirements-Supported x (done ++ r' ∷ rs) app h k) in
      (sup', λ q e. ap (λ s. s.requirements) (kept ∙ own) ∙ ap (λ t. done ++ t ∷ rs) (same q e))

  -- At the end of the loop each requirement of the service is selected and runs.
  initialize_requirements-Supported :
      (x : ℕ) (done rs : List Requirement) (app : Application)
      → (app.heap x).status ≡ status_starting
      → (app.heap x).requirements ≡ done ++ rs
      → All (Selected app) done
      → Supported app
      → (let out = initialize_requirements recurse x done rs app in
          Supported out.0 × (out.1 ≡ ok tt → All (Selected out.0) (out.0.heap x).requirements))
  unfolding initialize_requirements
  initialize_requirements-Supported x done [] app h e a k =
      (k, λ q. subst (All (Selected app)) (sym (append-nil done) ∙ sym e) a)
  initialize_requirements-Supported x done (r ∷ rs) app h e a k =
      go (initialize_requirement recurse x done r rs app (select app r.feature r.implementation))
        (initialize_requirement-Round recurse rec x done r rs app _
          (starting (app.heap x).status h))
        (initialize_requirement-Supported x done r rs app _ h k)
        (λ r' app1. initialize_requirements-Supported x (done ++ r' ∷ []) rs app1)
    where
      go :
          (round : Application × Result Error Requirement)
          → Round x app round.0 round.1
          → Supported round.0
            × ((q : Requirement) → round.1 ≡ ok q → (round.0.heap x).requirements ≡ done ++ q ∷ rs)
          → ((r' : Requirement) (app1 : Application)
              → (app1.heap x).status ≡ status_starting
              → (app1.heap x).requirements ≡ (done ++ r' ∷ []) ++ rs
              → All (Selected app1) (done ++ r' ∷ [])
              → Supported app1
              → (let out = initialize_requirements recurse x (done ++ r' ∷ []) rs app1 in
                  Supported out.0
                  × (out.1 ≡ ok tt → All (Selected out.0) (out.0.heap x).requirements)))
          → (let out : Application × Result Error (Unit {0}) = elim round.1 [
            | raise e ↦ (round.0, raise e)
            | ok r' ↦ initialize_requirements recurse x (done ++ r' ∷ []) rs round.0
          ] in
              Supported out.0 × (out.1 ≡ ok tt → All (Selected out.0) (out.0.heap x).requirements))
      go (app1, raise _) round s rest = (s.0, λ q. cc)
      go (app1, ok r') round s rest =
          rest r' app1 (round.own ∙ h) (s.1 r' refl ∙ sym (append_assoc done (r' ∷ []) rs))
            (All-append (Selected app1) done (r' ∷ [])
              (All-Selected app app1 (Keeps-runs x app app1 h round.keeps) done a)
              (round.selected r' refl, tt))
            s.0

stopped_runs : status_stopped.running ≡ true → ⊥
unfolding status_stopped
stopped_runs r = cc

conclude-Supported :
    (x : ℕ) (app : Application) (result : Result Error (Unit {0}))
    → Supported app
    → (app.heap x).status.running ≡ false
    → (result ≡ ok tt → All (Selected app) (app.heap x).requirements)
    → Supported (conclude x app result).0
unfolding conclude set_status
conclude-Supported x app (raise e) k i h =
    write-Supported x (record (app.heap x) { status = status_stopped }) app k i
      (λ r. elim (stopped_runs r) [ ])
conclude-Supported x app (ok _) k i h =
    write-Supported x (record (app.heap x) { status = status_running (app.heap x).status }) app k i
      (λ r. h refl)

module _ (b : Behaviour) where
  finish_initialize-Supported :
      (x : ℕ) (app : Application) (result : Result Error (Unit {0}))
      → Supported app
      → (app.heap x).status ≡ status_starting
      → (result ≡ ok tt → All (Selected app) (app.heap x).requirements)
      → Supported (finish_initialize b x (app, result)).0
  unfolding finish_initialize status_starting Supported
  finish_initialize-Supported x app (raise e) k i h =
      conclude-Supported x app (raise e) k (ap (λ s. s.running) i) (λ q. cc)
  finish_initialize-Supported x app (ok _) k i h =
      let app' : Application = record app { calls = initialized x ∷ app.calls } in
      conclude-Supported x app' (own_error (b.do_initialize app.calls x))
        (λ y r. All-Selected app app' (λ z t. t) (app.heap y).requirements (k y r))
        (ap (λ s. s.running) i)
        (λ q. All-Selected app app' (λ z t. t) (app.heap x).requirements (h refl))

  initialize-Supports : (fuel : ℕ) → Supports (initialize b fuel)
  unfolding initialize Supports
  initialize-Supports zero x app i k = k
  initialize-Supports (suc fuel) x app i k =
      let app1 = set_status x status_starting app in
      let rs = (app.heap x).requirements in
      let rec = initialize-Recurses b fuel in
      let own = heap-set_status x status_starting app in
      let at_start = ap (λ s. s.status) own in
      let loop =
        initialize_requirements-Supported (initialize b fuel) rec (initialize-Supports fuel) x [] rs
          app1 at_start (ap (λ s. s.requirements) own) tt (set_status-Supported x app i k) in
      let kept =
        initialize_requirements-Keeps (initialize b fuel) rec x [] rs app1
          (starting (app1.heap x).status at_start) in
      let out = initialize_requirements (initialize b fuel) x [] rs app1 in
      finish_initialize-Supported x out.0 out.1 loop.0 (kept.1 ∙ at_start) loop.1

module _ (b : Behaviour) where
  -- If each service that runs has the services that it requires selected and running, then it is so
  -- after `Service::initialize` of a service that neither runs nor starts, whether that succeeds or
  -- throws.
  pub initialize_supports :
      (fuel x : ℕ) (app : Application)
      → is_active app x ≡ false
      → Supported app
      → Supported (initialize b fuel x app).0
  unfolding Supports
  initialize_supports fuel x app i k = initialize-Supports b fuel x app i k
