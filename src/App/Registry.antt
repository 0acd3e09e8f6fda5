-- ===== src/App/Registry.antt =====
-- What `attach` registers and `select` finds.
use coffee.Base.{
  either, Bool, true, false, Result, ok, if◌then◌else◌, ℕ, suc, String, List, [], ◌∷◌, ◌++◌, none,
  some, leb, ◌==◌, ==_iff, ◌≡◌, ◌≢◌, ◌≤◌, refl, arith, sym, ap, ◌∙◌, subst, inl, inr, Option-cases,
  text_key,
}
use coffee.App.Service.{
  Error, Service, Behaviour, Application, equal_range, find_implementation, select, select_in,
  whatever_implementation,
}
use coffee.App.Application.{insert, attach}

-- The entries of the multimap are in the order of their features.
unfoldable pub Sorted : List (ℕ × ℕ) → Type 0
Sorted [] = Unit
Sorted ((f, x) ∷ []) = Unit
Sorted ((f, x) ∷ (g, y) ∷ services) = (f ≤ g) × Sorted ((g, y) ∷ services)

equal_range-above :
    (feature f x : ℕ) (services : List (ℕ × ℕ))
    → Sorted ((f, x) ∷ services)
    → suc feature ≤ f
    → equal_range feature ((f, x) ∷ services) ≡ []
unfolding Sorted equal_range
equal_range-above feature f x [] s h = ground arith
equal_range-above feature f x ((g, y) ∷ services) s h =
    ground (arith, equal_range-above feature g y services s.1, s.0)

insert-Sorted :
    (feature x f y : ℕ) (services : List (ℕ × ℕ))
    → Sorted ((f, y) ∷ services)
    → f ≤ feature
    → Sorted ((f, y) ∷ insert feature x services)
unfolding Sorted insert
insert-Sorted feature x f y [] s h = (h, tt)
insert-Sorted feature x f y ((g, z) ∷ services) s h =
    either (λ t. Sorted ((f, y) ∷ t)) (leb g feature)
      (λ e. (s.0, insert-Sorted feature x g z services s.1 (ground arith)))
      (λ e. (h, (ground arith, s.1)))

equal_range-insert :
    (feature x g : ℕ) (services : List (ℕ × ℕ))
    → Sorted services
    → equal_range g (insert feature x services)
      ≡ (if feature == g then equal_range g services ++ x ∷ [] else equal_range g services)
unfolding Sorted insert equal_range
equal_range-insert feature x g [] s = ground arith
equal_range-insert feature x g ((f, y) ∷ []) s = ground arith
equal_range-insert feature x g ((f, y) ∷ (h, z) ∷ services) s = ground (
  arith,
  s.0,
  equal_range-insert feature x g ((h, z) ∷ services) s.1,
  equal_range-above g f y ((h, z) ∷ services) s,
)

find_implementation-found :
    (heap : ℕ → Service) (implementation : String) (xs : List ℕ) (x y : ℕ)
    → find_implementation heap implementation xs ≡ some y
    → find_implementation heap implementation (xs ++ x ∷ []) ≡ some y
unfolding find_implementation
find_implementation-found heap implementation [] x y h = cc
find_implementation-found heap implementation (z ∷ zs) x y h =
    ground (arith, find_implementation-found heap implementation zs x y)

find_implementation-append :
    (heap : ℕ → Service) (implementation : String) (xs : List ℕ) (x : ℕ)
    → find_implementation heap implementation xs ≡ none
    → (heap x).implementation ≡ implementation
    → find_implementation heap implementation (xs ++ x ∷ []) ≡ some x
unfolding find_implementation
find_implementation-append heap implementation [] x n h =
    ground (arith, text_key.same_iff (heap x).implementation implementation)
find_implementation-append heap implementation (y ∷ ys) x n h =
    ground (arith, find_implementation-append heap implementation ys x)

insert_first-Sorted :
    (feature x : ℕ) (services : List (ℕ × ℕ)) → Sorted services → Sorted (insert feature x services)
unfolding Sorted insert
insert_first-Sorted feature x [] s = tt
insert_first-Sorted feature x ((f, y) ∷ services) s =
    either Sorted (leb f feature) (λ e. insert-Sorted feature x f y services s (ground arith))
      (λ e. (ground arith, s))

-- `select` finds in a longer range what it found before.
select_in-append :
    (heap : ℕ → Service) (implementation : String) (xs : List ℕ) (x y : ℕ)
    → select_in heap implementation xs ≡ ok y
    → select_in heap implementation (xs ++ x ∷ []) ≡ ok y
unfolding select_in
select_in-append heap implementation [] x y h = cc
select_in-append heap implementation (z ∷ zs) x y h =
    ground (arith, find_implementation-found heap implementation (z ∷ zs) x y)

select_in-found :
    (heap : ℕ → Service) (implementation : String) (xs : List ℕ) (x : ℕ)
    → find_implementation heap implementation xs ≡ some x
    → implementation ≢ whatever_implementation
    → select_in heap implementation xs ≡ ok x
unfolding select_in find_implementation
select_in-found heap implementation [] x h w = cc
select_in-found heap implementation (y ∷ ys) x h w =
    ground (arith, text_key.same_iff implementation whatever_implementation)

module _ (b : Behaviour) where
  attach-none :
      (fuel x : ℕ) (app : Application)
      → app.status.running ≡ false
      → find_implementation app.heap
          (app.heap x).implementation
          (equal_range (app.heap x).feature app.services)
        ≡ none
      → attach b fuel (some x) app
        ≡ (record app { services = insert (app.heap x).feature x app.services }, ok true)
  unfolding attach
  attach-none fuel x app r n = simp (attach, n, r)

  attach-some :
      (fuel x y : ℕ) (app : Application)
      → find_implementation app.heap
          (app.heap x).implementation
          (equal_range (app.heap x).feature app.services)
        ≡ some y
      → attach b fuel (some x) app ≡ (app, ok false)
  unfolding attach
  attach-some fuel x y app n = rw (attach, n)

  -- When an application that does not run, and whose entries are in the order of their features,
  -- attaches a service whose implementation is not the one that stands for all, and `attach` returns
  -- true, then the entries are in order again and `select` of the service's feature and
  -- implementation returns the service.
  pub attach_selects :
      (fuel x : ℕ) (app : Application)
      → app.status.running ≡ false
      → Sorted app.services
      → (attach b fuel (some x) app).1 ≡ ok true
      → (app.heap x).implementation ≢ whatever_implementation
      → Sorted (attach b fuel (some x) app).0.services
        × (select (attach b fuel (some x) app).0 (app.heap x).feature (app.heap x).implementation
            ≡ ok x)
  unfolding select
  attach_selects fuel x app r s h w =
      elim (Option-cases (
        find_implementation app.heap (app.heap x).implementation
          (equal_range (app.heap x).feature app.services))) [
            | inl n ↦
                subst
                  (λ out.
                    Sorted out.0.services
                    × (select out.0 (app.heap x).feature (app.heap x).implementation ≡ ok x))
                  (sym (attach-none fuel x app r n))
                  (
                    insert_first-Sorted (app.heap x).feature x app.services s,
                    subst (λ xs. select_in app.heap (app.heap x).implementation xs ≡ ok x)
                        (sym (
                          equal_range-insert (app.heap x).feature x (app.heap x).feature
                            app.services s
                          ∙ ground (arith, ==_iff (app.heap x).feature (app.heap x).feature)))
                        (select_in-found app.heap (app.heap x).implementation
                          (equal_range (app.heap x).feature app.services ++ x ∷ []) x
                          (find_implementation-append app.heap (app.heap x).implementation
                            (equal_range (app.heap x).feature app.services) x n refl)
                          w),
                  )
            | inr (y, n) ↦ absurd (not_attached (ap (λ out. out.1) (attach-some fuel x y app n)) h)
          ]
    where
      not_attached : {r : Result Error Bool} → r ≡ ok false → r ≡ ok true → ⊥
      not_attached e f = cc

  -- When an application that does not run, and whose entries are in the order of their features,
  -- attaches a service, each selection that succeeded before returns what it did.
  pub select-attach :
      (fuel x y feature : ℕ) (implementation : String) (app : Application)
      → app.status.running ≡ false
      → Sorted app.services
      → select app feature implementation ≡ ok y
      → select (attach b fuel (some x) app).0 feature implementation ≡ ok y
  unfolding select
  select-attach fuel x y feature implementation app r s h =
      elim (Option-cases (
        find_implementation app.heap (app.heap x).implementation
          (equal_range (app.heap x).feature app.services))) [
            | inl n ↦
                subst (λ out. select out.0 feature implementation ≡ ok y)
                  (sym (attach-none fuel x app r n))
                  (subst (λ xs. select_in app.heap implementation xs ≡ ok y)
                    (sym (equal_range-insert (app.heap x).feature x feature app.services s))
                    (either (λ xs. select_in app.heap implementation xs ≡ ok y)
                      ((app.heap x).feature == feature)
                      (λ e.
                        select_in-append app.heap implementation (equal_range feature app.services)
                          x y h)
                      (λ e. h)))
            | inr (z, n) ↦
                subst (λ out. select out.0 feature implementation ≡ ok y)
                  (sym (attach-some fuel x z app n)) h
          ]
