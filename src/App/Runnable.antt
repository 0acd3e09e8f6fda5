-- ===== src/App/Runnable.antt =====
-- source/include/coffee/app/Runnable.hpp and source/src/app/Runnable.cc: the status of what starts
-- and stops. `m_statusFlags` is a record of its three bits.
use coffee.Base.{Bool, true, false, ◌||◌, not, Result, ok, raise, if◌then◌else◌, arith, ◌≡◌}

pub record Status : Type 0 where
  pub starting : Bool
  pub running : Bool
  pub stopped_with_error : Bool

unfoldable pub status_stopped : Status
status_stopped = record { starting = false; running = false; stopped_with_error = false }

unfoldable pub status_failed : Status
status_failed = record { starting = false; running = false; stopped_with_error = true }

unfoldable pub status_starting : Status
status_starting = record { starting = true; running = false; stopped_with_error = false }

unfoldable pub status_running : Status → Status
status_running status = record status { starting = false; running = true }

-- The flags are 0 or that of an error.
unfoldable pub is_stopped : Status → Bool
is_stopped status = not (status.starting || status.running)

-- `answer` is what the virtual `do_stop` returns or throws.
unfoldable pub stop {ℓ} : {E : Type ℓ} → Result E (Unit {0}) → Status → Status × Result E Bool
stop answer status =
    if is_stopped status
    then (status, ok false)
    else elim answer [ ok _ ↦ (status_stopped, ok true) | raise e ↦ (status_failed, raise e) ]

-- Whatever `do_stop` does, what was asked to stop is stopped.
pub is_stopped-stop {ℓ} :
    {E : Type ℓ} (answer : Result E (Unit {0})) (status : Status)
    → is_stopped (stop answer status).0 ≡ true
unfolding is_stopped stop status_stopped status_failed
is_stopped-stop answer status = ground arith
