-- ===== src/App/Initialize.antt =====
-- What `Service::initialize` does to the other services, and that its recursion ends.
use coffee.Base.{
  Result-cases, Bool, true, false, ◌||◌, Result, ok, raise, ℕ, zero, suc, List, [], ◌∷◌, ◌++◌, some,
  ◌≡◌, ◌≢◌, refl, arith, ap, ◌∙◌, ◌⊎◌, inl, inr, text_key,
}
use coffee.App.Runnable.{Status, status_stopped, status_starting, status_running}
use coffee.App.Service.{
  Error, out_of_fuel, Requirement, initialized, Behaviour, Application, select, write, set_status,
  set_requirements, initialize_requirement, initialize_selection, initialize_requirements, conclude,
  own_error, finish_initialize, initialize,
}

unfoldable pub is_active : Application → ℕ → Bool
is_active app x = (app.heap x).status.starting || (app.heap x).status.running

-- Each service that runs or starts, `x` apart, is left as it was.
unfoldable pub Keeps : ℕ → Application → Application → Type 0
Keeps x app app' =
    (app'.services ≡ app.services)
    × ((y : ℕ) → y ≢ x → is_active app y ≡ true → app'.heap y ≡ app.heap y)

-- The same for a service that does not run or start itself.
unfoldable pub KeepsAll : Application → Application → Type 0
KeepsAll app app' =
    (app'.services ≡ app.services) × ((y : ℕ) → is_active app y ≡ true → app'.heap y ≡ app.heap y)

pub KeepsAll-Keeps :
    (x : ℕ) (app app' : Application)
    → is_active app x ≡ false
    → Keeps x app app'
    → KeepsAll app app'
unfolding KeepsAll Keeps
KeepsAll-Keeps x app app' i k = (k.0, λ y a. k.1 y (λ e. ground arith) a)

set_requirements-Keeps :
    (x : ℕ) (requirements : List Requirement) (app : Application)
    → Keeps x app (set_requirements x requirements app)
unfolding Keeps write set_requirements
set_requirements-Keeps x requirements app = (refl, λ y n a. ground arith)

set_status-Keeps :
    (x : ℕ) (status : Status) (app : Application) → Keeps x app (set_status x status app)
unfolding Keeps write set_status
set_status-Keeps x status app = (refl, λ y n a. ground arith)

pub Keeps-trans :
    (x : ℕ) (app app' app'' : Application)
    → Keeps x app app'
    → Keeps x app' app''
    → Keeps x app app''
unfolding Keeps is_active
Keeps-trans x app app' app'' k l = (l.0 ∙ k.0, λ y n a. ground (arith, k.1 y n a, l.1 y n))

pub KeepsAll-weaken : (x : ℕ) (app app' : Application) → KeepsAll app app' → Keeps x app app'
unfolding KeepsAll Keeps
KeepsAll-weaken x app app' k = (k.0, λ y n a. k.1 y a)

-- What the loop on the requirements needs of the recursive call.
unfoldable pub Recurses : (ℕ → Application → Application × Result Error (Unit {0})) → Type 0
Recurses recurse =
    (y : ℕ) (app : Application)
    → is_active app y ≡ false
    → KeepsAll app (recurse y app).0
      × ((recurse y app).1 ≡ ok tt → ((recurse y app).0.heap y).status.running ≡ true)

-- A requirement that was selected is a service that runs.
unfoldable pub Selected : Application → Requirement → Type 0
Selected app r = (y : ℕ) × (r.selection ≡ some y) × ((app.heap y).status.running ≡ true)

-- What one round does to the application, while the service at `x` is starting.
pub record Round (x : ℕ) (app app' : Application) (result : Result Error Requirement) : Type 0 where
  pub keeps : Keeps x app app'
  pub own : (app'.heap x).status ≡ (app.heap x).status
  pub selected : (r : Requirement) → result ≡ ok r → Selected app' r

write-own :
    (x : ℕ) (requirements : List Requirement) (app : Application)
    → ((set_requirements x requirements app).heap x).status ≡ (app.heap x).status
unfolding set_requirements write
write-own x requirements app = ground arith

starting-set_status :
    (x : ℕ) (app : Application) → ((set_status x status_starting app).heap x).status.starting ≡ true
unfolding set_status write status_starting
starting-set_status x app = ground arith

module _ (recurse : ℕ → Application → Application × Result Error (Unit {0}))
    (rec : Recurses recurse) where
  initialize_selection-Round :
      (x y : ℕ) (r : Requirement) (app : Application) (running starting : Bool)
      → (app.heap x).status.starting ≡ true
      → r.selection ≡ some y
      → (app.heap y).status.running ≡ running
      → (app.heap y).status.starting ≡ starting
      → (let out = initialize_selection recurse y r app running starting in Round x app out.0 out.1)
  unfolding initialize_selection Keeps Selected Recurses is_active KeepsAll
  initialize_selection-Round x y r app true starting h s hr hs = record {
    keeps = (refl, λ z n a. refl);
    own = refl;
    selected = λ r' e. (y, ground arith, hr);
  }
  initialize_selection-Round x y r app false true h s hr hs = record {
    keeps = (refl, λ z n a. refl);
    own = refl;
    selected = λ r' e. cc;
  }
  initialize_selection-Round x y r app false false h s hr hs =
      let k = rec y app (ground arith) in
      record {
        keeps = KeepsAll-weaken x app (recurse y app).0 k.0;
        own = ap (λ s. s.status) (k.0.1 x (ground arith));
        selected = λ r' e. (y, ground arith, k.1 (ground arith));
      }

  pub initialize_requirement-Round :
      (x : ℕ) (done : List Requirement) (r : Requirement) (rs : List Requirement)
      (app : Application) (selected : Result Error ℕ)
      → (app.heap x).status.starting ≡ true
      → (let out = initialize_requirement recurse x done r rs app selected in
          Round x app out.0 out.1)
  unfolding initialize_requirement Keeps
  initialize_requirement-Round x done r rs app (raise e) h = record {
    keeps = (refl, λ z n a. refl);
    own = refl;
    selected = λ r' e. cc;
  }
  initialize_requirement-Round x done r rs app (ok y) h =
      let r' : Requirement = record r { selection = some y } in
      let app1 = set_requirements x (done ++ r' ∷ rs) app in
      let own = write-own x (done ++ r' ∷ rs) app in
      let round =
        initialize_selection-Round x y r' app1 _ _ (ap (λ s. s.starting) own ∙ h) refl refl refl in
      let out = initialize_requirement recurse x done r rs app (ok y) in
      record {
        keeps =
            Keeps-trans x app app1 out.0 (set_requirements-Keeps x (done ++ r' ∷ rs) app)
              round.keeps;
        own = round.own ∙ own;
        selected = round.selected;
      }

  -- The loop keeps the other services that are active, and leaves its own starting.
  pub initialize_requirements-Keeps :
      (x : ℕ) (done rs : List Requirement) (app : Application)
      → (app.heap x).status.starting ≡ true
      → (let out = initialize_requirements recurse x done rs app in
          Keeps x app out.0 × ((out.0.heap x).status ≡ (app.heap x).status))
  unfolding initialize_requirements Keeps
  initialize_requirements-Keeps x done [] app h = ((refl, λ y n a. refl), refl)
  initialize_requirements-Keeps x done (r ∷ rs) app h =
      go (initialize_requirement recurse x done r rs app (select app r.feature r.implementation))
        (initialize_requirement-Round x done r rs app _ h)
        (λ r' app1. initialize_requirements-Keeps x (done ++ r' ∷ []) rs app1)
    where
      go :
          (round : Application × Result Error Requirement)
          → Round x app round.0 round.1
          → ((r' : Requirement) (app1 : Application)
              → (app1.heap x).status.starting ≡ true
              → (let out = initialize_requirements recurse x (done ++ r' ∷ []) rs app1 in
                  Keeps x app1 out.0 × ((out.0.heap x).status ≡ (app1.heap x).status)))
          → (let out : Application × Result Error (Unit {0}) = elim round.1 [
            | raise e ↦ (round.0, raise e)
            | ok r' ↦ initialize_requirements recurse x (done ++ r' ∷ []) rs round.0
          ] in
              Keeps x app out.0 × ((out.0.heap x).status ≡ (app.heap x).status))
      go (app1, raise e) k rest = (k.keeps, k.own)
      go (app1, ok r') k rest =
          let last = rest r' app1 (ap (λ s. s.starting) k.own ∙ h) in
          let out = initialize_requirements recurse x (done ++ r' ∷ []) rs app1 in
          (Keeps-trans x app app1 out.0 k.keeps last.0, last.1 ∙ k.own)

pub conclude-Keeps :
    (x : ℕ) (app : Application) (result : Result Error (Unit {0}))
    → (let out = conclude x app result in
        Keeps x app out.0
        × (out.1 ≡ ok tt → (out.0.heap x).status.running ≡ true)
        × ((e : Error) → out.1 ≡ raise e → (out.0.heap x).status ≡ status_stopped))
unfolding conclude set_status write status_running
conclude-Keeps x app (raise e) =
    (set_status-Keeps x status_stopped app, λ q. cc, λ e' q. ground arith)
conclude-Keeps x app (ok _) =
    (set_status-Keeps x (status_running (app.heap x).status) app, λ q. ground arith, λ e' q. cc)

module _ (b : Behaviour) where
  finish_initialize-Keeps :
      (x : ℕ) (app app1 : Application) (result : Result Error (Unit {0}))
      → Keeps x app app1
      → (let out = finish_initialize b x (app1, result) in
          Keeps x app out.0
          × (out.1 ≡ ok tt → (out.0.heap x).status.running ≡ true)
          × ((e : Error) → out.1 ≡ raise e → (out.0.heap x).status ≡ status_stopped))
  unfolding finish_initialize Keeps
  finish_initialize-Keeps x app app1 (raise e) k =
      let c = conclude-Keeps x app1 (raise e) in
      (Keeps-trans x app app1 (conclude x app1 (raise e)).0 k c.0, c.1, c.2)
  finish_initialize-Keeps x app app1 (ok _) k =
      let answer = own_error (b.do_initialize app1.calls x) in
      let app2 : Application = record app1 { calls = initialized x ∷ app1.calls } in
      let c = conclude-Keeps x app2 answer in
      (Keeps-trans x app app2 (conclude x app2 answer).0 k c.0, c.1, c.2)

  pub initialize-zero :
      (x : ℕ) (app : Application) → initialize b 0 x app ≡ (app, raise out_of_fuel)
  unfolding initialize
  initialize-zero x app = refl

  -- With a loop that keeps the other services.
  initialize-suc :
      (fuel x : ℕ) (app : Application)
      → Recurses (initialize b fuel)
      → (let out = initialize b (suc fuel) x app in
          Keeps x app out.0
          × (out.1 ≡ ok tt → (out.0.heap x).status.running ≡ true)
          × ((e : Error) → out.1 ≡ raise e → (out.0.heap x).status ≡ status_stopped))
  unfolding initialize
  initialize-suc fuel x app rec =
      let app1 = set_status x status_starting app in
      let loop = initialize_requirements (initialize b fuel) x [] (app.heap x).requirements app1 in
      let k =
        initialize_requirements-Keeps (initialize b fuel) rec x [] (app.heap x).requirements app1
          (starting-set_status x app) in
      finish_initialize-Keeps x app loop.0 loop.1
        (Keeps-trans x app app1 loop.0 (set_status-Keeps x status_starting app) k.0)

  pub initialize-Recurses : (fuel : ℕ) → Recurses (initialize b fuel)
  unfolding Recurses KeepsAll initialize
  initialize-Recurses zero y app i = ((refl, λ z a. refl), λ e. cc)
  initialize-Recurses (suc fuel) y app i =
      let k = initialize-suc fuel y app (initialize-Recurses fuel) in
      (KeepsAll-Keeps y app (initialize b (suc fuel) y app).0 i k.0, k.1)

  -- Whatever it returns, `Service::initialize` leaves the other services that run or start as they
  -- are; the service itself runs, or is stopped and the exception is thrown.
  pub initialize-Keeps :
      (fuel x : ℕ) (app : Application)
      → (let out = initialize b (suc fuel) x app in
          Keeps x app out.0
          × (out.1 ≡ ok tt → (out.0.heap x).status.running ≡ true)
          × ((e : Error) → out.1 ≡ raise e → (out.0.heap x).status ≡ status_stopped))
  initialize-Keeps fuel x app = initialize-suc fuel x app (initialize-Recurses fuel)

  -- `Service::initialize` leaves each other service that runs or starts as it is. Either it succeeds,
  -- and the service runs, or it throws, and the service is stopped.
  pub initialize_outcome :
      (fuel x : ℕ) (app : Application)
      → (let out = initialize b (suc fuel) x app in
          Keeps x app out.0
          × (((out.1 ≡ ok tt) × ((out.0.heap x).status.running ≡ true))
              ⊎ ((e : Error) × (out.1 ≡ raise e) × ((out.0.heap x).status ≡ status_stopped))))
  initialize_outcome fuel x app =
      let k = initialize-Keeps fuel x app in
      (
        k.0,
        elim (Result-cases (initialize b (suc fuel) x app).1) [
          | inl (e, q) ↦ inr (e, q, k.2 e q)
          | inr (u, q) ↦ inl (q, k.1 q)
        ],
      )
