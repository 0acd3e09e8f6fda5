-- ===== src/App/Services.antt =====
-- What starting and stopping an application does to all its services.
use coffee.Base.{
  true, Result, ok, raise, ℕ, suc, List, [], ◌∷◌, ◌==◌, ==_iff, ◌≡◌, ◌≢◌, ◌⊎◌, refl, arith, sym, ap,
  ◌∙◌, subst, inl, inr, Bool-cases, ℕ_discrete,
}
use coffee.App.Runnable.{is_stopped, stop, is_stopped-stop}
use coffee.App.Service.{Error, Behaviour, Application, write, set_status, initialize}
use coffee.App.Initialize.{is_active, Keeps, initialize-Keeps}
use coffee.App.Counting.{contains}
use coffee.App.Application.{start_each, start_services, stop_service, stop_each, do_stop}

-- A service that runs goes on running when another one is initialized, and is running again when it
-- is initialized again.
initialize_runs :
    (b : Behaviour) (fuel x y : ℕ) (app : Application)
    → (initialize b (suc fuel) x app).1 ≡ ok tt
    → (y ≡ x) ⊎ ((app.heap y).status.running ≡ true)
    → ((initialize b (suc fuel) x app).0.heap y).status.running ≡ true
unfolding Keeps is_active
initialize_runs b fuel x y app h c =
    let k = initialize-Keeps b fuel x app in
    elim (ℕ_discrete y x) [
      | yes e ↦
          subst (λ z. ((initialize b (suc fuel) x app).0.heap z).status.running ≡ true) (sym e)
            (k.1 h)
      | no n ↦ elim c [
        | inl e ↦ absurd (n e)
        | inr r ↦ ap (λ s. s.status.running) (k.0.1 y n (ground arith)) ∙ r
      ]
    ]

start_each_runs :
    (b : Behaviour) (fuel : ℕ) (services : List (ℕ × ℕ)) (app : Application) (y : ℕ)
    → (start_each b (suc fuel) services app).1 ≡ ok tt
    → (contains y services ≡ true) ⊎ ((app.heap y).status.running ≡ true)
    → ((start_each b (suc fuel) services app).0.heap y).status.running ≡ true
unfolding start_each contains
start_each_runs b fuel [] app y h c = elim c [ inl e ↦ cc | inr r ↦ r ]
start_each_runs b fuel ((f, x) ∷ services) app y h c =
    go (initialize b (suc fuel) x app) (initialize_runs b fuel x y app)
      (λ app1. start_each_runs b fuel services app1 y) h
  where
    go :
        (out : Application × Result Error (Unit {0}))
        → (out.1 ≡ ok tt
            → (y ≡ x) ⊎ ((app.heap y).status.running ≡ true)
            → (out.0.heap y).status.running ≡ true)
        → ((app1 : Application)
            → (start_each b (suc fuel) services app1).1 ≡ ok tt
            → (contains y services ≡ true) ⊎ ((app1.heap y).status.running ≡ true)
            → ((start_each b (suc fuel) services app1).0.heap y).status.running ≡ true)
        → (let next : Application × Result Error (Unit {0}) = elim out.1 [
          | raise e ↦ (out.0, raise e)
          | ok _ ↦ start_each b (suc fuel) services out.0
        ] in
            next.1 ≡ ok tt → (next.0.heap y).status.running ≡ true)
    go (app1, raise e) k rest q = cc
    go (app1, ok _) k rest q = rest app1 q (elim c [
      | inl e ↦ elim (Bool-cases (x == y)) [
        | inl s ↦ inr (k refl (inl (ground (arith, ==_iff x y))))
        | inr d ↦ inl (ground arith)
      ]
      | inr r ↦ inr (k refl (inr r))
    ])

module _ (b : Behaviour) where
  -- If `startServices` succeeds, each service of the application runs.
  pub start_services_run :
      (fuel y : ℕ) (app : Application)
      → (start_services b (suc fuel) app).1 ≡ ok tt
      → contains y app.services ≡ true
      → ((start_services b (suc fuel) app).0.heap y).status.running ≡ true
  unfolding start_services
  start_services_run fuel y app h c = start_each_runs b fuel app.services app y h (inl c)

  heap-stop_service :
      (x y : ℕ) (app : Application) → y ≢ x → (stop_service b x app).0.heap y ≡ app.heap y
  unfolding stop_service set_status write
  heap-stop_service x y app n = ground arith

  status-stop_service :
      (x : ℕ) (app : Application)
      → ((stop_service b x app).0.heap x).status
        ≡ (stop (b.do_stop app.calls x) (app.heap x).status).0
  unfolding stop_service set_status write
  status-stop_service x app = ground arith

  stop_service-is_stopped :
      (x y : ℕ) (app : Application)
      → (y ≡ x) ⊎ (is_stopped (app.heap y).status ≡ true)
      → is_stopped ((stop_service b x app).0.heap y).status ≡ true
  stop_service-is_stopped x y app c = elim (ℕ_discrete y x) [
    | yes e ↦
        subst (λ z. is_stopped ((stop_service b x app).0.heap z).status ≡ true) (sym e)
          (ap is_stopped (status-stop_service x app)
            ∙ is_stopped-stop (b.do_stop app.calls x) (app.heap x).status)
    | no n ↦ elim c [
      | inl e ↦ absurd (n e)
      | inr r ↦ ap (λ s. is_stopped s.status) (heap-stop_service x y app n) ∙ r
    ]
  ]

  stop_each-is_stopped :
      (services : List (ℕ × ℕ)) (y : ℕ) (app : Application)
      → (contains y services ≡ true) ⊎ (is_stopped (app.heap y).status ≡ true)
      → is_stopped ((stop_each b services app).0.heap y).status ≡ true
  unfolding stop_each contains
  stop_each-is_stopped [] y app c = elim c [ inl e ↦ cc | inr r ↦ r ]
  stop_each-is_stopped ((f, x) ∷ services) y app c =
      stop_each-is_stopped services y (stop_service b x app).0 (elim c [
        | inl e ↦ elim (Bool-cases (x == y)) [
          | inl s ↦ inr (stop_service-is_stopped x y app (inl (ground (arith, ==_iff x y))))
          | inr d ↦ inl (ground arith)
        ]
        | inr r ↦ inr (stop_service-is_stopped x y app (inr r))
      ])

  -- After `do_stop` each service of the application is stopped, also if some of them throw.
  pub do_stop_stops :
      (y : ℕ) (app : Application)
      → contains y app.services ≡ true
      → is_stopped ((do_stop b app).0.heap y).status ≡ true
  unfolding do_stop
  do_stop_stops y app c = stop_each-is_stopped app.services y app (inl c)
