-- ===== src/Time.antt =====
-- coffee.time: source/src/time and source/include/coffee/time.
pub mod Service
pub mod Agenda
pub mod Unlinking
pub mod Quanta
pub mod Invariant
pub mod Restart
pub mod Cancelling
pub mod Single
pub mod Delivery
mod Tests
