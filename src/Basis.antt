-- ===== src/Basis.antt =====
-- coffee.basis: source/src/basis and source/include/coffee/basis.
pub mod Cache
pub mod Access
pub mod Updates
pub mod Eviction
pub mod Erasure
pub mod Lru
pub mod Order
pub mod Sizes
pub mod Moves
pub mod Operations
pub mod Writes
pub mod Removal
pub mod Refinement
pub mod Observer
mod Tests
