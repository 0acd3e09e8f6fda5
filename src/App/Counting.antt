-- ===== src/App/Counting.antt =====
-- How many attached services neither run nor start.
use coffee.Base.{
  Bool, true, false, ◌||◌, Result, ok, raise, if◌then◌else◌, ℕ, suc, String, List, [], ◌∷◌, some,
  ◌==◌, ==_iff, ◌≡◌, ◌≢◌, arith, sym, subst, ◌<◌, ◌≤◌, text_key, ℕ_discrete,
}
use coffee.App.Service.{
  Error, out_of_fuel, Service, Application, select, select_in, equal_range, find_implementation,
}
use coffee.App.Initialize.{is_active, Keeps}

-- The services that neither run nor start.
unfoldable pub count_inactive : Application → List (ℕ × ℕ) → ℕ
count_inactive app [] = 0
count_inactive app ((f, y) ∷ services) =
    let rest = count_inactive app services in if is_active app y then rest else suc rest

unfoldable pub contains : ℕ → List (ℕ × ℕ) → Bool
contains x [] = false
contains x ((f, y) ∷ services) = y == x || contains x services

pub has : ℕ → List ℕ → Bool
has x [] = false
has x (y ∷ ys) = y == x || has x ys

has-equal_range :
    (x feature : ℕ) (services : List (ℕ × ℕ))
    → has x (equal_range feature services) ≡ true
    → contains x services ≡ true
unfolding has equal_range contains
has-equal_range x feature [] h = h
has-equal_range x feature ((f, y) ∷ services) h = ground (arith, has-equal_range x feature services)

has-find_implementation :
    (heap : ℕ → Service) (implementation : String) (xs : List ℕ) (x : ℕ)
    → find_implementation heap implementation xs ≡ some x
    → has x xs ≡ true
unfolding has find_implementation
has-find_implementation heap implementation [] x h = cc
has-find_implementation heap implementation (y ∷ ys) x h =
    ground (arith, has-find_implementation heap implementation ys x, ==_iff x x)

has-select_in :
    (heap : ℕ → Service) (implementation : String) (xs : List ℕ) (x : ℕ)
    → select_in heap implementation xs ≡ ok x
    → has x xs ≡ true
unfolding select_in has
has-select_in heap implementation [] x h = cc
has-select_in heap implementation (y ∷ ys) x h =
    ground (arith, has-find_implementation heap implementation (y ∷ ys) x, ==_iff x x)

-- What is selected is attached.
pub contains-select :
    (app : Application) (feature : ℕ) (implementation : String) (x : ℕ)
    → select app feature implementation ≡ ok x
    → contains x app.services ≡ true
unfolding select
contains-select app feature implementation x h =
    has-equal_range x feature app.services (has-select_in app.heap implementation _ x h)

select_in-out_of_fuel :
    (heap : ℕ → Service) (implementation : String) (xs : List ℕ)
    → select_in heap implementation xs ≢ raise out_of_fuel
unfolding select_in
select_in-out_of_fuel heap implementation [] h = cc
select_in-out_of_fuel heap implementation (y ∷ ys) h = ground arith

pub select-out_of_fuel :
    (app : Application) (feature : ℕ) (implementation : String)
    → select app feature implementation ≢ raise out_of_fuel
unfolding select
select-out_of_fuel app feature implementation h =
    select_in-out_of_fuel app.heap implementation (equal_range feature app.services) h

-- Services that stay active are not counted again.
pub count_inactive-KeepsAll :
    (app app' : Application)
    → ((y : ℕ) → is_active app y ≡ true → is_active app' y ≡ true)
    → (services : List (ℕ × ℕ)) → count_inactive app' services ≤ count_inactive app services
unfolding count_inactive
count_inactive-KeepsAll app app' h [] = omega arith
count_inactive-KeepsAll app app' h ((f, y) ∷ services) =
    ground (arith, h y, count_inactive-KeepsAll app app' h services)

-- Starting an attached service leaves fewer of them.
pub count_inactive-starting :
    (app app' : Application) (x : ℕ)
    → ((y : ℕ) → is_active app y ≡ true → is_active app' y ≡ true)
    → is_active app x ≡ false
    → is_active app' x ≡ true
    → (services : List (ℕ × ℕ)) → contains x services ≡ true
    → count_inactive app' services < count_inactive app services
unfolding count_inactive contains
count_inactive-starting app app' x h i a [] c = cc
count_inactive-starting app app' x h i a ((f, y) ∷ services) c = ground (
  arith,
  h y,
  ==_iff y x,
  count_inactive-KeepsAll app app' h services,
  count_inactive-starting app app' x h i a services,
)

pub Keeps-active :
    (x : ℕ) (app app' : Application)
    → Keeps x app app'
    → (is_active app x ≡ true → is_active app' x ≡ true)
    → (y : ℕ) → is_active app y ≡ true
    → is_active app' y ≡ true
unfolding Keeps is_active
Keeps-active x app app' k h y a = elim (ℕ_discrete y x) [
  | yes e ↦
      subst (λ z. is_active app' z ≡ true) (sym e) (h (subst (λ z. is_active app z ≡ true) e a))
  | no n ↦ at_other (k.1 y n a)
]
  where
    at_other : app'.heap y ≡ app.heap y → is_active app' y ≡ true
    at_other e = ground arith

pub Keeps-services :
    (x : ℕ) (app app' : Application) → Keeps x app app' → app'.services ≡ app.services
unfolding Keeps
Keeps-services x app app' k = k.0

unfoldable pub Returns : ℕ → (ℕ → Application → Application × Result Error (Unit {0})) → Type 0
Returns fuel recurse =
    (y : ℕ) (app : Application)
    → is_active app y ≡ false
    → contains y app.services ≡ true
    → count_inactive app app.services ≤ fuel
    → (recurse y app).1 ≢ raise out_of_fuel
