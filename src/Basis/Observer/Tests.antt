-- ===== src/Basis/Observer/Tests.antt =====
-- Runs and instances of the theorems on observers.
use coffee.Base.{ℕ, false, raise, [], ◌∷◌, number_key, find, erase, ◌≡◌, refl}
use coffee.Basis.Sizes.{DistinctKeys}
use coffee.Basis.Observer.{
  Flags, already_subscribed, set_subscribed, attach_new, attach, detach, detach_all, notify,
  count_observers,
}
use coffee.Basis.Observer.Steps.{
  Observed, Step, attaches, deletes, stay, go, IsObserved, Run-IsObserved,
}
use coffee.Basis.Observer.Attachments.{attachments, all_attachments}

program : Unit {0}
unfolding find erase DistinctKeys set_subscribed attach_new attach detach detach_all notify
    count_observers attachments all_attachments
program = tt

abbrev name_of : ℕ → ℕ
name_of observer = observer

abbrev nobody : Flags
nobody observer = false

abbrev start : Observed ℕ
start = record { subscribed = nobody; subjects = [] ∷ [] ∷ [] }

abbrev attached : Observed ℕ
attached = record {
  subscribed = (attach name_of 3 nobody []).0;
  subjects = ((3, 3) ∷ []) ∷ [] ∷ [];
}

abbrev deleted : Observed ℕ
deleted = record {
  subscribed = detach_all {N = ℕ} ((3, 3) ∷ []) (attach name_of 3 nobody []).0;
  subjects = [] ∷ [];
}

first-step : Step name_of start attached
unfolding program
first-step = attaches [] ([] ∷ []) [] ((3, 3) ∷ []) 3 refl refl refl refl

-- A second subject does not take the observer.
attach-twice : (attach name_of 3 attached.subscribed []).1 ≡ raise already_subscribed
unfolding program
attach-twice = refl

notify-attached : notify {N = ℕ} {Event = ℕ} 9 ((3, 3) ∷ []) ≡ (3, 9) ∷ []
unfolding program
notify-attached = refl

last-step : Step name_of attached deleted
last-step = deletes [] ([] ∷ []) ((3, 3) ∷ []) refl refl refl

start-IsObserved : IsObserved name_of start
unfolding program
start-IsObserved = record { once = λ i. refl; distinct = (tt, (tt, tt)) }

Run-IsObserved_example : IsObserved name_of deleted
Run-IsObserved_example = Run-IsObserved name_of (go first-step (go last-step stay)) start-IsObserved
