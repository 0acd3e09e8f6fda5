-- ===== src/Basis/Observer.antt =====
-- source/src/basis/pattern/observer/Subject.cc, with Observer.hpp and Subject.hpp of
-- source/include/coffee/basis/pattern/observer.
--
-- An observer is a number, and its name is given by the parameter `name_of`. `m_isSubscribed` of all
-- observers is a function, since an observer is shared between its owner and a subject. A subject is
-- its register `m_observers`. What an observer's own `attached` and `detached` do is left out, and an
-- `update` is a delivery in a list.
pub mod Attachments
pub mod Steps
mod Tests
use coffee.Base.{
  ℕ, Bool, true, false, Option, none, some, Result, ok, raise, List, [], ◌∷◌, length, Key, find,
  erase, if◌then◌else◌, ◌==◌,
}

pub data ObserverError : Type 0 where
  already_subscribed : ObserverError

abbrev pub Flags : Type 0
Flags = ℕ → Bool

-- `Observer::isSubscribed (value)`.
unfoldable pub set_subscribed : ℕ → Bool → Flags → Flags
set_subscribed observer value subscribed i = if i == observer then value else subscribed i

module _ {N : Type 0} ⦃key : Key N⦄ (name_of : ℕ → N) where
  -- The rest of `attach`, given what the register has for the name.
  unfoldable pub attach_new :
      ℕ → Flags → List (N × ℕ) → Option ℕ → Flags × Result ObserverError (List (N × ℕ))
  attach_new observer subscribed observers (some _) = (subscribed, ok observers)
  attach_new observer subscribed observers none =
      if subscribed observer
      then (subscribed, raise already_subscribed)
      else (set_subscribed observer true subscribed, ok ((name_of observer, observer) ∷ observers))

  unfoldable pub attach : ℕ → Flags → List (N × ℕ) → Flags × Result ObserverError (List (N × ℕ))
  attach observer subscribed observers =
      attach_new observer subscribed observers (find observers (name_of observer))

module _ {N : Type 0} ⦃key : Key N⦄ where
  unfoldable pub detach : N → Flags → List (N × ℕ) → Flags × List (N × ℕ) × Bool
  detach name subscribed observers = elim (find observers name) [
    | none ↦ (subscribed, observers, false)
    | some observer ↦ (set_subscribed observer false subscribed, erase observers name, true)
  ]

module _ {N : Type 0} where
  -- The destructor's loop.
  unfoldable pub detach_all : List (N × ℕ) → Flags → Flags
  detach_all [] subscribed = subscribed
  detach_all ((name, observer) ∷ observers) subscribed =
      detach_all observers (set_subscribed observer false subscribed)

  -- The observers that `notify` updates with the event.
  unfoldable pub notify : {Event : Type 0} → Event → List (N × ℕ) → List (ℕ × Event)
  notify event [] = []
  notify event ((name, observer) ∷ observers) = (observer, event) ∷ notify event observers

  unfoldable pub count_observers : List (N × ℕ) → ℕ
  count_observers observers = length observers
