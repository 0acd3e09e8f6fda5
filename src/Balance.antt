-- ===== src/Balance.antt =====
-- coffee.balance: source/src/balance and source/include/coffee/balance.
pub mod ResourceList
pub mod Search
pub mod Indexed
pub mod RoundRobin
pub mod ByRange
mod Tests
