-- ===== src/App.antt =====
-- coffee.app: source/src/app and source/include/coffee/app.
pub mod Runnable
pub mod Service
pub mod Application
pub mod Initialize
pub mod Writes
pub mod Requirements
pub mod Counting
pub mod Termination
pub mod Services
pub mod Registry
mod Tests
