-- ===== src/App/Writes.antt =====
-- What writes to services do to the requirements of those that run.
use coffee.Base.{
  true, false, Result, ℕ, List, [], ◌∷◌, ◌==◌, ==_iff, ◌≡◌, arith, All, ap, ◌∙◌, subst, inl, inr,
  Bool-cases, text_key,
}
use coffee.App.Runnable.{Status, status_starting}
use coffee.App.Service.{
  Error, Requirement, Service, Application, write, set_status, set_requirements,
}
use coffee.App.Initialize.{is_active, Keeps, Selected}

-- Each requirement of a service that runs is selected, and runs.
unfoldable pub Supported : Application → Type 0
Supported app =
    (y : ℕ) → (app.heap y).status.running ≡ true → All (Selected app) (app.heap y).requirements

-- Selections stay when the services that run go on running.
pub All-Selected :
    (app app' : Application)
    → ((y : ℕ) → (app.heap y).status.running ≡ true → (app'.heap y).status.running ≡ true)
    → (rs : List Requirement) → All (Selected app) rs
    → All (Selected app') rs
unfolding Selected
All-Selected app app' h [] k = k
All-Selected app app' h (r ∷ rs) k = ((k.0.0, k.0.1, h k.0.0 k.0.2), All-Selected app app' h rs k.1)

-- A write to a service that did not run, and that runs afterwards only with its requirements.
pub write-Supported :
    (x : ℕ) (s : Service) (app : Application)
    → Supported app
    → (app.heap x).status.running ≡ false
    → (s.status.running ≡ true → All (Selected app) s.requirements)
    → Supported (write x s app)
unfolding Supported write
write-Supported x s app h i k y run = elim (Bool-cases (y == x)) [
  | inl e ↦
      subst (λ t. All (Selected (write x s app)) t.requirements) (at_self e)
        (All-Selected app (write x s app) grows s.requirements (k (ground arith)))
  | inr e ↦
      subst (λ t. All (Selected (write x s app)) t.requirements) (at_other e)
        (All-Selected app (write x s app) grows (app.heap y).requirements (h y (ground arith)))
]
  where
    at_self : (y == x) ≡ true → s ≡ (write x s app).heap y
    at_self e = ground arith

    at_other : (y == x) ≡ false → app.heap y ≡ (write x s app).heap y
    at_other e = ground arith

    grows :
        (z : ℕ)
        → (app.heap z).status.running ≡ true
        → ((write x s app).heap z).status.running ≡ true
    grows z r = ground (arith, ==_iff z x)

pub starting : (s : Status) → s ≡ status_starting → s.starting ≡ true
unfolding status_starting
starting s h = ap (λ t. t.starting) h

-- While the service at `x` starts, those that run go on running.
pub Keeps-runs :
    (x : ℕ) (app app' : Application)
    → (app.heap x).status ≡ status_starting
    → Keeps x app app'
    → (z : ℕ) → (app.heap z).status.running ≡ true
    → (app'.heap z).status.running ≡ true
unfolding Keeps is_active status_starting
Keeps-runs x app app' h k z r =
    ap (λ s. s.status.running) (k.1 z (λ e. ground arith) (ground arith)) ∙ r

pub heap-set_requirements :
    (x : ℕ) (requirements : List Requirement) (app : Application)
    → (set_requirements x requirements app).heap x
      ≡ record (app.heap x) { requirements = requirements }
unfolding set_requirements write
heap-set_requirements x requirements app = ground arith

pub heap-set_status :
    (x : ℕ) (status : Status) (app : Application)
    → (set_status x status app).heap x ≡ record (app.heap x) { status = status }
unfolding set_status write
heap-set_status x status app = ground arith

pub set_status-Supported :
    (x : ℕ) (app : Application)
    → is_active app x ≡ false
    → Supported app
    → Supported (set_status x status_starting app)
unfolding set_status status_starting is_active
set_status-Supported x app i k =
    write-Supported x (record (app.heap x) { status = status_starting }) app k (ground arith)
      (λ r. cc)

pub set_requirements-Supported :
    (x : ℕ) (requirements : List Requirement) (app : Application)
    → (app.heap x).status ≡ status_starting
    → Supported app
    → Supported (set_requirements x requirements app)
unfolding set_requirements status_starting
set_requirements-Supported x requirements app h k =
    write-Supported x (record (app.heap x) { requirements = requirements }) app k (ground arith)
      (λ r. ground arith)

unfoldable pub Supports : (ℕ → Application → Application × Result Error (Unit {0})) → Type 0
Supports recurse =
    (y : ℕ) (app : Application)
    → is_active app y ≡ false
    → Supported app
    → Supported (recurse y app).0
