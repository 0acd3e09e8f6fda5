-- ===== src/Persistence.antt =====
-- coffee.persistence: source/src/persistence and source/include/coffee/persistence.
pub mod Storage
pub mod Guards
pub mod Outcomes
pub mod Caching
pub mod Repeated
pub mod Erasing
pub mod Releasing
mod Tests
